-- ===== src/Enum/Selection.antt =====
-- src/plvcore/Enum.cpp (setSelected, getSelectedItemName).
use parlevision.Base.{
  ℕ, zero, suc, ◌+◌, ◌≡◌, refl, sym, ap, ◌∙◌, true, false, List, [], ◌∷◌, some, ◌==◌, get_elem?,
  take, contains, arith, Bool-cases, inl, inr, ◌⊎◌,
}
use parlevision.Base.Table.{lookup, values}
use parlevision.Enum.{
  EnumPair, Enum, new_enum, select_from, set_selected, name_of, get_item_name,
  get_selected_item_name,
}
use parlevision.Enum.Items.{Added, fill, numbered, pairs_of, names, fill-items, lookup-numbered}

values-numbered : (i : ℕ) (pairs : List EnumPair) → values (numbered i pairs) ≡ pairs
values-numbered i [] = refl
values-numbered i (p ∷ pairs) = ap (λ l. p ∷ l) (values-numbered (suc i) pairs)

-- The loop stops at the first item with the name, if there is one.
select_from-cases :
    (selected k : ℕ) (pairs : List EnumPair) (e : Enum)
    → ((j : ℕ) × (p : EnumPair) × (select_from selected k pairs e
          ≡ record e { selected_index = k + j })
        × (get_elem? pairs j ≡ some p)
        × (p.name ≡ selected)
        × (contains selected (take j (names pairs)) ≡ false))
      ⊎ ((contains selected (names pairs) ≡ false) × (select_from selected k pairs e ≡ e))
unfolding select_from
select_from-cases selected k [] e = inr (refl, refl)
select_from-cases selected k (p ∷ pairs) e = elim (Bool-cases (p.name == selected)) [
  | inl y ↦
      let stop : k ≡ k + 0 = omega arith in
      inl
        (0, p, rw y (ap (λ n. record e { selected_index = n }) stop), refl, ground (arith, y), refl)
  | inr z ↦ elim (select_from-cases selected (suc k) pairs e) [
    | inl (j, q, a, b, c, d) ↦
        let shift : suc k + j ≡ k + suc j = omega arith in
        inl (
          suc j,
          q,
          rw z (a ∙ ap (λ n. record e { selected_index = n }) shift),
          b,
          c,
          ground (arith, z, d),
        )
    | inr (a, b) ↦ inr (ground (arith, z, a), rw z b)
  ]
]

-- setSelected on an enumeration that was filled by calls of add: if an item has the name, the first
-- such item is selected, and getSelectedItemName then gives the name; if none has it, nothing
-- changes.
pub set_selected-get_selected_item_name :
    (added : List Added) (selected name : ℕ)
    → let e = fill added (new_enum selected) in
      let all_names = names (pairs_of 0 added) in
      ((i : ℕ) × (set_selected name e ≡ record e { selected_index = i })
        × (get_selected_item_name (set_selected name e) ≡ some name)
        × (contains name (take i all_names) ≡ false))
      ⊎ ((contains name all_names ≡ false) × (set_selected name e ≡ e))
unfolding set_selected get_selected_item_name get_item_name
set_selected-get_selected_item_name added selected name =
    let e = fill added (new_enum selected) in
    let pairs = pairs_of 0 added in
    let items = fill-items added selected in
    let all_values : values e.items ≡ pairs = ap values items ∙ values-numbered 0 pairs in
    elim (select_from-cases name 0 pairs e) [
      | inl (i, p, a, found, same, first) ↦
          let chosen : set_selected name e ≡ record e { selected_index = i } =
            ap (λ l. select_from name 0 l e) all_values
            ∙ a
            ∙ ap (λ n. record e { selected_index = n }) (zero_plus i) in
          let there : lookup i e.items ≡ some p =
            ap (lookup i) items
            ∙ ap (λ n. lookup n (numbered 0 pairs)) (sym (zero_plus i))
            ∙ lookup-numbered 0 i pairs
            ∙ found in
          inl (i, chosen, ap get_selected_item_name chosen ∙ ap name_of there ∙ ap some same, first)
      | inr (a, b) ↦ inr (a, ap (λ l. select_from name 0 l e) all_values ∙ b)
    ]
  where
    zero_plus : (n : ℕ) → 0 + n ≡ n
    zero_plus n = omega arith

-- Two enumerations have the same items, from the number 0 on, and the selected item of the second
-- is the first one with its name.
pub record IsSelection (old saved : Enum) : Type 0 where
  pub pairs : List EnumPair
  pub name : ℕ
  pub old_items : old.items ≡ numbered 0 pairs
  pub saved_items : saved.items ≡ numbered 0 pairs
  pub selected : (p : EnumPair) × (get_elem? pairs saved.selected_index ≡ some p) × (p.name ≡ name)
  pub first : contains name (take saved.selected_index (names pairs)) ≡ false

select_from-first :
    (name k i : ℕ) (pairs : List EnumPair) (p : EnumPair) (e : Enum)
    → get_elem? pairs i ≡ some p
    → p.name ≡ name
    → contains name (take i (names pairs)) ≡ false
    → select_from name k pairs e ≡ record e { selected_index = k + i }
unfolding select_from
select_from-first name k i [] p e found same first = absurd (ground (arith, found))
select_from-first name k zero (q ∷ pairs) p e found same first =
    let here : (q.name == name) ≡ true = ground (arith, found, same) in
    rw here (ap (λ n. record e { selected_index = n }) (omega arith))
select_from-first name k (suc i) (q ∷ pairs) p e found same first =
    let apart : (q.name == name) ≡ false = ground (arith, first) in
    let rest = select_from-first name (suc k) i pairs p e found same (ground (arith, first)) in
    rw apart (rest ∙ ap (λ n. record e { selected_index = n }) (omega arith))

pub set_selected-IsSelection :
    (old saved : Enum) (s : IsSelection old saved)
    → (get_selected_item_name saved ≡ some s.name) × (set_selected s.name old ≡ saved)
unfolding set_selected get_selected_item_name get_item_name
set_selected-IsSelection old saved s =
    let (p, found, same) = s.selected in
    let i = saved.selected_index in
    let plus : 0 + i ≡ i = omega arith in
    let there : lookup i saved.items ≡ some p =
      ap (lookup i) s.saved_items
      ∙ ap (λ n. lookup n (numbered 0 s.pairs)) (sym plus)
      ∙ lookup-numbered 0 i s.pairs
      ∙ found in
    let chosen = select_from-first s.name 0 i s.pairs p old found same s.first in
    (
      ap name_of there ∙ ap some same,
      ap (λ l. select_from s.name 0 l old) (ap values s.old_items ∙ values-numbered 0 s.pairs)
          ∙ chosen
          ∙ ap (λ n. record old { selected_index = n }) plus
          ∙ ap (λ l. record saved { items = l }) (s.old_items ∙ sym s.saved_items),
    )

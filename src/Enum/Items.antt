-- ===== src/Enum/Items.antt =====
-- What src/plvcore/Enum.cpp (add, getItemName, getItemValue, getItemNames) does on an enumeration that
-- was filled by calls of add.
use parlevision.Base.{
  ℕ, zero, suc, ◌+◌, ◌≡◌, refl, sym, ap, ◌∙◌, false, List, [], ◌∷◌, ◌++◌, Option, none, some, ◌==◌,
  length, length-append, get_elem?, arith, append_assoc, append-nil,
}
use parlevision.Base.Table.{Table, lookup, insert}
use parlevision.Enum.{
  EnumPair, Enum, new_enum, add_value, add, name_of, value_of, get_item_name, get_item_value,
  names_from, get_item_names,
}

-- A call of add, with a value or without.
pub record Added : Type 0 where
  pub name : ℕ
  pub value : Option ℕ

abbrev add_one : ℕ → Option ℕ → Enum → Enum
add_one name none e = add name e
add_one name (some value) e = add_value name value e

unfoldable pub fill : List Added → Enum → Enum
fill [] e = e
fill (a ∷ added) e = fill added (add_one a.name a.value e)

-- The pair that a call leaves, as the item with a number.
abbrev pub pair_of : ℕ → Added → EnumPair
pair_of i a = record { name = a.name; value = elim a.value [ none ↦ i | some v ↦ v ] }

-- The items with numbers from a first one on.
abbrev pub numbered : ℕ → List EnumPair → Table EnumPair
numbered i [] = []
numbered i (p ∷ pairs) = (i, p) ∷ numbered (suc i) pairs

abbrev pub pairs_of : ℕ → List Added → List EnumPair
pairs_of i [] = []
pairs_of i (a ∷ added) = pair_of i a ∷ pairs_of (suc i) added

abbrev pub names : List EnumPair → List ℕ
names [] = []
names (p ∷ pairs) = p.name ∷ names pairs

length-numbered : (i : ℕ) (pairs : List EnumPair) → length (numbered i pairs) ≡ length pairs
length-numbered i [] = refl
length-numbered i (p ∷ pairs) = ap suc (length-numbered (suc i) pairs)

insert-numbered :
    (i : ℕ) (pairs : List EnumPair) (p : EnumPair)
    → insert (i + length pairs) p (numbered i pairs) ≡ numbered i (pairs ++ p ∷ [])
unfolding insert
insert-numbered i [] p = ap (λ (n : ℕ). (n, p) ∷ []) (omega arith)
insert-numbered i (q ∷ pairs) p =
    let same : i + suc (length pairs) ≡ suc i + length pairs = omega arith in
    let other : (i == i + suc (length pairs)) ≡ false = ground arith in
    rw other (
      ap (λ n. (i, q) ∷ insert n p (numbered (suc i) pairs)) same
      ∙ ap (λ l. (i, q) ∷ l) (insert-numbered (suc i) pairs p))

insert-next :
    (pairs : List EnumPair) (items : Table EnumPair) (name value : ℕ)
    → items ≡ numbered 0 pairs
    → insert (length items) (record { name = name; value = value }) items
      ≡ numbered 0 (pairs ++ record { name = name; value = value } ∷ [])
insert-next pairs items name value h =
    let size : length items ≡ 0 + length pairs =
      ap length h ∙ length-numbered 0 pairs ∙ omega arith in
    ap (λ n. insert n (record { name = name; value = value }) items) size
    ∙ ap (insert (0 + length pairs) (record { name = name; value = value })) h
    ∙ insert-numbered 0 pairs (record { name = name; value = value })

add_one-numbered :
    (a : Added) (pairs : List EnumPair) (e : Enum)
    → e.items ≡ numbered 0 pairs
    → (add_one a.name a.value e).items ≡ numbered 0 (pairs ++ pair_of (length pairs) a ∷ [])
unfolding add add_value
add_one-numbered a pairs e h = by_value a.value
  where
    size : length e.items ≡ length pairs
    size = ap length h ∙ length-numbered 0 pairs

    by_value :
        (o : Option ℕ)
        → (add_one a.name o e).items
          ≡ numbered 0 (pairs ++ pair_of (length pairs) (record { name = a.name; value = o }) ∷ [])
    by_value none =
        insert-next pairs e.items a.name (length e.items) h
        ∙ ap (λ n. numbered 0 (pairs ++ record { name = a.name; value = n } ∷ [])) size
    by_value (some v) = insert-next pairs e.items a.name v h

-- The items after calls of add on an enumeration with some items.
fill-numbered :
    (added : List Added) (pairs : List EnumPair) (e : Enum)
    → e.items ≡ numbered 0 pairs
    → (fill added e).items ≡ numbered 0 (pairs ++ pairs_of (length pairs) added)
unfolding fill
fill-numbered [] pairs e h = h ∙ ap (numbered 0) (sym (append-nil pairs))
fill-numbered (a ∷ added) pairs e h =
    let more = pairs ++ pair_of (length pairs) a ∷ [] in
    let size : length more ≡ suc (length pairs) =
      length-append pairs (pair_of (length pairs) a ∷ []) ∙ omega arith in
    fill-numbered added more (add_one a.name a.value e) (add_one-numbered a pairs e h)
    ∙ ap (λ n. numbered 0 (more ++ pairs_of n added)) size
    ∙ ap (numbered 0)
        (append_assoc pairs (pair_of (length pairs) a ∷ []) (pairs_of (suc (length pairs)) added))

-- The items of an enumeration that was filled from the start.
pub fill-items :
    (added : List Added) (selected : ℕ)
    → (fill added (new_enum selected)).items ≡ numbered 0 (pairs_of 0 added)
fill-items added selected = fill-numbered added [] (new_enum selected) refl

pub lookup-numbered :
    (i j : ℕ) (pairs : List EnumPair) → lookup (i + j) (numbered i pairs) ≡ get_elem? pairs j
unfolding lookup
lookup-numbered i j [] = refl
lookup-numbered i zero (p ∷ pairs) = ground arith
lookup-numbered i (suc j) (p ∷ pairs) =
    let other : (i == i + suc j) ≡ false = ground arith in
    let same : i + suc j ≡ suc i + j = omega arith in
    rw other (ap (λ n. lookup n (numbered (suc i) pairs)) same ∙ lookup-numbered (suc i) j pairs)

-- The items from an index on.
abbrev IsRest : ℕ → List EnumPair → List EnumPair → Type 0
IsRest i rest pairs = (j : ℕ) → get_elem? pairs (i + j) ≡ get_elem? rest j

names_from-names :
    (i : ℕ) (rest pairs : List EnumPair)
    → IsRest i rest pairs
    → names_from i (length rest) (numbered 0 pairs) ≡ names rest
unfolding names_from
names_from-names i [] pairs h = refl
names_from-names i (p ∷ rest) pairs h =
    let here : lookup i (numbered 0 pairs) ≡ some p =
      ap (λ n. lookup n (numbered 0 pairs)) (zero_plus i)
      ∙ lookup-numbered 0 i pairs
      ∙ ap (get_elem? pairs) (at_zero i)
      ∙ h 0 in
    rw here (
      ap (λ l. p.name ∷ l)
        (names_from-names (suc i) rest pairs (λ j. ap (get_elem? pairs) (shift i j) ∙ h (suc j))))
  where
    zero_plus : (n : ℕ) → n ≡ 0 + n
    zero_plus n = omega arith

    at_zero : (n : ℕ) → n ≡ n + 0
    at_zero n = omega arith

    shift : (n j : ℕ) → suc n + j ≡ n + suc j
    shift n j = omega arith

-- An enumeration that was filled by calls of add: getItemName and getItemValue of an index give the
-- name and the value of the call with that number, or throw if there was none; the value of a call
-- without one is its number. getItemNames gives the names of all calls, in order.
pub fill-lookup :
    (added : List Added) (selected i : ℕ)
    → let e = fill added (new_enum selected) in
      (get_item_name i e ≡ name_of (get_elem? (pairs_of 0 added) i))
      × (get_item_value i e ≡ value_of (get_elem? (pairs_of 0 added) i))
      × (get_item_names e ≡ names (pairs_of 0 added))
unfolding get_item_name get_item_value get_item_names
fill-lookup added selected i =
    let e = fill added (new_enum selected) in
    let pairs = pairs_of 0 added in
    let items = fill-items added selected in
    let found : lookup i e.items ≡ get_elem? pairs i =
      ap (lookup i) items
      ∙ ap (λ n. lookup n (numbered 0 pairs)) (zero_plus i)
      ∙ lookup-numbered 0 i pairs in
    (
      ap name_of found,
      ap value_of found,
      ap (λ t. names_from 0 (length t) t) items
          ∙ ap (λ n. names_from 0 n (numbered 0 pairs)) (length-numbered 0 pairs)
          ∙ names_from-names 0 pairs pairs (λ j. ap (get_elem? pairs) (sym (zero_plus j))),
    )
  where
    zero_plus : (n : ℕ) → n ≡ 0 + n
    zero_plus n = omega arith

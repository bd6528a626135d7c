-- ===== src/Protocol/BigEndian.antt =====
-- A coding for src/plvtcpserver/TCPClientProducer.cpp and src/plvtcpserver/ServerConnection.cpp
-- that does what QDataStream documents: words are four bytes, the highest first, and the values
-- are truth values.
use parlevision.Base.{
  ℕ, zero, suc, ◌+◌, ◌*◌, ◌/◌, ◌%◌, ◌<◌, ◌^◌, ◌≡◌, refl, ap, Bool, true, false, List, [], ◌∷◌, ◌++◌,
  Option, none, some, arith,
}
use parlevision.Protocol.{DataStream, IsDataStream}

abbrev word : ℕ → List ℕ
word n = n / 16777216 % 256 ∷ n / 65536 % 256 ∷ n / 256 % 256 ∷ n % 256 ∷ []

-- Behind the end of the bytes a zero is read.
abbrev unword : List ℕ → ℕ × List ℕ
unword (a ∷ b ∷ c ∷ d ∷ rest) = (a * 16777216 + b * 65536 + c * 256 + d, rest)
unword _ = (0, [])

-- A byte for a value: 0 is the invalid one, 1 is false, and the others are true.
abbrev variant : Option Bool → List ℕ
variant none = 0 ∷ []
variant (some false) = 1 ∷ []
variant (some true) = 2 ∷ []

abbrev unvariant : List ℕ → Option Bool × List ℕ
unvariant [] = (none, [])
unvariant (zero ∷ rest) = (none, rest)
unvariant (suc zero ∷ rest) = (some false, rest)
unvariant (suc (suc n) ∷ rest) = (some true, rest)

abbrev pub big_endian : DataStream Bool
big_endian = record { word = word; unword = unword; variant = variant; unvariant = unvariant }

unword-word : (n : ℕ) (rest : List ℕ) → n < 2 ^ 32 → unword (word n ++ rest) ≡ (n, rest)
unword-word n rest h =
    let same : n / 16777216 % 256 * 16777216
          + n / 65536 % 256 * 65536
          + n / 256 % 256 * 256
          + n % 256
        ≡ n =
      omega (arith, h) in
    ap (λ (m : ℕ). (m, rest)) same

unvariant-variant : (v : Option Bool) (rest : List ℕ) → unvariant (variant v ++ rest) ≡ (v, rest)
unvariant-variant none rest = refl
unvariant-variant (some false) rest = refl
unvariant-variant (some true) rest = refl

pub big_endian-IsDataStream : IsDataStream big_endian
big_endian-IsDataStream = record {
  length-word = λ n. refl;
  unword-word = unword-word;
  unvariant-variant = unvariant-variant;
}

-- ===== src/Text/Basic.antt =====
-- Bytes, literals, equality, order and ASCII case.
use Prim.Native.Char.{code}
use optimizer_canary_service.Base.{
  ℕ, ◌+◌, Bool, true, false, ◌&&◌, List, [], ◌∷◌, ◌≡◌, ◌↔◌, arith, String, compare, Ordering, leb,
  ◌==◌, if◌then◌else◌, ℕ_discrete,
}

abbrev pub Bytes : Type 0
Bytes = List ℕ

-- The code points of a literal, which are its bytes when it is ASCII.
abbrev pub codes : String → Bytes
codes String.[] = []
codes (String.◌∷◌ c s) = code c ∷ codes s

-- `==` on strings.
unfoldable pub bytes_eq : Bytes → Bytes → Bool
bytes_eq [] [] = true
bytes_eq (x ∷ s) (y ∷ t) = x == y && bytes_eq s t
bytes_eq _ _ = false

pub bytes_eq_iff : (s t : Bytes) → (bytes_eq s t ≡ true) ↔ (s ≡ t)
unfolding bytes_eq
bytes_eq_iff (x ∷ s) (y ∷ t) = ground (arith, bytes_eq_iff s t)
bytes_eq_iff _ _ = ground arith

pub Bytes-discrete : Discrete Bytes
Bytes-discrete = hlevel ℕ_discrete

abbrev pub lower_byte : ℕ → ℕ
lower_byte c = if leb b'A' c && leb c b'Z' then c + 32 else c

-- `strings.ToLower`.
unfoldable pub to_lower : Bytes → Bytes
to_lower [] = []
to_lower (c ∷ s) = lower_byte c ∷ to_lower s

-- `strings.EqualFold`.
unfoldable pub equal_fold : Bytes → Bytes → Bool
unfolding bytes_eq to_lower
equal_fold s t = bytes_eq (to_lower s) (to_lower t)

-- `strings.Compare`.
unfoldable pub compare_bytes : Bytes → Bytes → Ordering
compare_bytes [] [] = Ordering.eq
compare_bytes [] (y ∷ t) = Ordering.lt
compare_bytes (x ∷ s) [] = Ordering.gt
compare_bytes (x ∷ s) (y ∷ t) =
    let rest = compare_bytes s t in
    elim (compare x y) [ Ordering.lt ↦ Ordering.lt | Ordering.gt ↦ Ordering.gt | _ ↦ rest ]

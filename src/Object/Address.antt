-- ===== src/Object/Address.antt =====
-- `object_get_by_address` of signal_test/object.c on mappings that lie in the order of their addresses. A range in
-- /proc/self/maps is half-open, and the test in the program is closed.
use atrace.Prelude.{ℕ, ◌≤◌, ◌<◌, ◌≡◌, ◌≢◌, arith, some, List, [], ◌∷◌, ◌++◌, All, All-append_right}
use atrace.Object.{Object, object_get_by_address}

-- Mappings in ascending order that do not overlap, and may touch.
abbrev pub IsLayout : List Object → Type 0
IsLayout [] = Unit
IsLayout (o ∷ os) =
    (o.text_start < o.text_end) × All (λ p. o.text_end ≤ p.text_start) os × IsLayout os

-- If mappings are in ascending order without overlap, then an address from the start of one up
-- to its end, the end included, is resolved to it, where no mapping in front of it ends at that address.
pub object_get_by_address_finds :
    (addr : ℕ) (before : List Object) (o : Object) (after : List Object)
    → IsLayout (before ++ (o ∷ after))
    → o.text_start ≤ addr
    → addr ≤ o.text_end
    → All (λ p. p.text_end ≢ addr) before
    → object_get_by_address addr (before ++ (o ∷ after)) ≡ some o
unfolding object_get_by_address
object_get_by_address_finds addr [] o after l lo hi apart = ground arith
object_get_by_address_finds addr (p ∷ before) o after l lo hi apart =
    let (gap, _) = All-append_right (λ q. p.text_end ≤ q.text_start) before (o ∷ after) l.1 in
    ground (arith, object_get_by_address_finds addr before o after l.2 lo hi apart.1)

positive :
    (before : List Object) (o : Object) (after : List Object)
    → IsLayout (before ++ (o ∷ after))
    → o.text_start < o.text_end
positive [] o after l = l.0
positive (p ∷ before) o after l = positive before o after l.2

ends_below :
    (bound : ℕ) (before : List Object) (o : Object) (after : List Object)
    → IsLayout (before ++ (o ∷ after))
    → o.text_end ≡ bound
    → All (λ p. p.text_end ≢ bound) before
ends_below bound [] o after l e = tt
ends_below bound (p ∷ before) o after l e =
    let (gap, _) = All-append_right (λ q. p.text_end ≤ q.text_start) before (o ∷ after) l.1 in
    (omega (arith, positive before o after l.2), ends_below bound before o after l.2 e)

-- If mappings are in ascending order without overlap, and one begins at the address where another in front of it
-- ends, then its first address is resolved to the other.
pub object_get_by_address_shared :
    (before : List Object) (lower upper : Object) (after : List Object)
    → IsLayout (before ++ (lower ∷ upper ∷ after))
    → lower.text_end ≡ upper.text_start
    → object_get_by_address upper.text_start (before ++ (lower ∷ upper ∷ after)) ≡ some lower
object_get_by_address_shared before lower upper after l e =
    object_get_by_address_finds upper.text_start before lower (upper ∷ after) l
      (omega (arith, positive before lower (upper ∷ after) l)) (omega arith)
      (ends_below upper.text_start before lower (upper ∷ after) l e)

-- ===== src/Perception/Diff/Order.antt =====
-- Counting a map by its keys, sets without repetition, and the reading of a map in order.
use mathlib.Core.List.{append-nil, append_assoc}
use rote.Prelude.{
  suc, String, some, true, false, ◌||◌, List, [], ◌∷◌, ◌++◌, map, same, same_iff, same_refl, length,
  includes, All, All-map, All-zip, ◌≡◌, refl, sym, ◌∙◌, arith, String-discrete, ok,
}
use rote.Perception.Node.{DistilledNode, hash}
use rote.Perception.Diff.{get, has, delete, set_from, unique_ids, in_order, Field}
use rote.Perception.Diff.Maps.{HasUniqueIds, others, get-delete, HasUniqueIds-delete}

length-delete :
    (h : String) (ys : List DistilledNode)
    → has h ys ≡ true
    → suc (length (delete h ys)) ≡ length ys
length-delete h [] e = cc
length-delete h (y ∷ ys) e = ground (arith, length-delete h ys)

has_cons_self : (y : DistilledNode) (ys : List DistilledNode) → has (hash y) (y ∷ ys) ≡ true
has_cons_self y ys = rw (same_refl String-discrete (hash y)) refl

-- Two maps with the same keys have the same size.
pub length_of_keys :
    (xs ys : List DistilledNode)
    → HasUniqueIds xs
    → HasUniqueIds ys
    → ((h : String) → has h xs ≡ has h ys)
    → length xs ≡ length ys
length_of_keys [] [] u v k = refl
length_of_keys [] (y ∷ ys) u v k = cc (k (hash y), has_cons_self y ys)
length_of_keys (x ∷ xs) ys u v k =
    let there : has (hash x) ys ≡ true = sym (k (hash x)) ∙ has_cons_self x xs in
    let rest = length_of_keys xs (delete (hash x) ys) u.1 (HasUniqueIds-delete (hash x) ys v) (λ h.
      ground (arith, k h, get-delete h (hash x) ys v, same_iff String-discrete (hash x) h, u.0)) in
    omega (arith, rest, length-delete (hash x) ys there)

abbrev pub HasDistinct : List String → Type 0
HasDistinct [] = Unit
HasDistinct (i ∷ is) = (includes String-discrete is i ≡ false) × HasDistinct is

pub includes-hash :
    (h : String) (xs : List DistilledNode) → includes String-discrete (map hash xs) h ≡ has h xs
includes-hash h [] = refl
includes-hash h (x ∷ xs) = ground (arith, includes-hash h xs)

pub HasDistinct-hash : (xs : List DistilledNode) → HasUniqueIds xs → HasDistinct (map hash xs)
HasDistinct-hash [] u = tt
HasDistinct-hash (x ∷ xs) u = (includes-hash (hash x) xs ∙ u.0, HasDistinct-hash xs u.1)

includes-snoc :
    (seen : List String) (i h : String)
    → includes String-discrete (seen ++ i ∷ []) h
      ≡ (includes String-discrete seen h || same String-discrete i h)
includes-snoc [] i h = ground arith
includes-snoc (s ∷ seen) i h = ground (arith, includes-snoc seen i h)

not_included :
    (i : String) (is seen : List String)
    → includes String-discrete is i ≡ false
    → All (λ h. includes String-discrete seen h ≡ false) is
    → All (λ h. includes String-discrete (seen ++ i ∷ []) h ≡ false) is
not_included i [] seen e a = tt
not_included i (j ∷ is) seen e a = (
  ground (
    arith,
    includes-snoc seen i j,
    same_iff String-discrete i j,
    same_iff String-discrete j i,
    a.0,
  ),
  not_included i is seen (ground arith) a.1,
)

set_from_distinct :
    (seen ids : List String)
    → HasDistinct ids
    → All (λ h. includes String-discrete seen h ≡ false) ids
    → set_from seen ids ≡ seen ++ ids
unfolding set_from
set_from_distinct seen [] d a = sym (append-nil seen)
set_from_distinct seen (i ∷ ids) d a = rw a.0 (
    set_from_distinct (seen ++ i ∷ []) ids d.1 (not_included i ids seen d.0 a.1)
    ∙ append_assoc seen (i ∷ []) ids)

none_seen : (ids : List String) → All (λ h. includes String-discrete [] h ≡ false) ids
none_seen [] = tt
none_seen (i ∷ ids) = (refl, none_seen ids)

pub unique_ids_of : (ids : List String) (f : Field) → HasDistinct ids → unique_ids ids f ≡ ok ids
unfolding unique_ids
unique_ids_of ids f d = rw (set_from_distinct [] ids d (none_seen ids)) (ground arith)

-- Each node of a map is found under its hash.
pub get_self : (xs : List DistilledNode) → HasUniqueIds xs → All (λ n. get (hash n) xs ≡ some n) xs
get_self [] u = tt
get_self (x ∷ xs) u = (
  ground (arith, same_refl String-discrete (hash x)),
  All-map _ _
      (λ n h. ground (
        arith,
        same_iff String-discrete (hash n) (hash x),
        same_iff String-discrete (hash x) (hash n),
        h.0,
        h.1,
      ))
      xs (All-zip _ _ xs (get_self xs u.1) (others (hash x) xs u.0)),
)

pub in_order_of :
    (m xs : List DistilledNode)
    → All (λ n. get (hash n) m ≡ some n) xs
    → in_order m (map hash xs) ≡ ok xs
unfolding in_order
in_order_of m [] a = refl
in_order_of m (x ∷ xs) a = rw (a.0, in_order) (rw (in_order_of m xs a.1) refl)

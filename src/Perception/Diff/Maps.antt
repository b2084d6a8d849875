-- ===== src/Perception/Diff/Maps.antt =====
-- The laws of the node maps and of the sets of ids.
use rote.Prelude.{
  String, Option, some, none, Bool, false, List, [], ◌∷◌, ◌++◌, same, same_iff, includes, select,
  All, ◌≡◌, refl, ap, ◌∙◌, arith, String-discrete, if◌then◌else◌, ok,
}
use mathlib.Core.List.{append-nil, append_assoc}
use rote.Perception.Node.{DistilledNode, hash}
use rote.Perception.Diff.{
  get, has, put, delete, node_map_from, unique_node_map, delete_all, put_all,
}

-- No two nodes have one hash.
abbrev pub HasUniqueIds : List DistilledNode → Type 0
HasUniqueIds [] = Unit
HasUniqueIds (n ∷ ns) = (has (hash n) ns ≡ false) × HasUniqueIds ns

abbrev pub or_else : {A : Type 0} → Option A → Option A → Option A
or_else (some a) b = some a
or_else none b = b

abbrev pub keep_if : (DistilledNode → Bool) → Option DistilledNode → Option DistilledNode
keep_if p none = none
keep_if p (some n) = if p n then some n else none

pub get-append :
    (h : String) (xs ys : List DistilledNode) → get h (xs ++ ys) ≡ or_else (get h xs) (get h ys)
get-append h [] ys = refl
get-append h (x ∷ xs) ys = ground (arith, get-append h xs ys)

pub hash-get :
    (h : String) (xs : List DistilledNode) (n : DistilledNode) → get h xs ≡ some n → hash n ≡ h
hash-get h [] n e = cc
hash-get h (x ∷ xs) n e = ground (arith, same_iff String-discrete (hash x) h, hash-get h xs n)

put_fresh :
    (n : DistilledNode) (xs : List DistilledNode)
    → has (hash n) xs ≡ false
    → put n xs ≡ xs ++ n ∷ []
put_fresh n [] h = refl
put_fresh n (x ∷ xs) h = ground (arith, put_fresh n xs)

-- No node of the list has the hash.
pub others :
    (h : String) (xs : List DistilledNode)
    → has h xs ≡ false
    → All (λ n. same String-discrete (hash n) h ≡ false) xs
others h [] e = tt
others h (x ∷ xs) e = (ground arith, others h xs (ground arith))

fresh-snoc :
    (x : DistilledNode) (acc xs : List DistilledNode)
    → All (λ n. has (hash n) acc ≡ false) xs
    → All (λ n. same String-discrete (hash n) (hash x) ≡ false) xs
    → All (λ n. has (hash n) (acc ++ x ∷ []) ≡ false) xs
fresh-snoc x acc [] a o = tt
fresh-snoc x acc (n ∷ ns) a o = (
  ground (
    arith,
    get-append (hash n) acc (x ∷ []),
    same_iff String-discrete (hash n) (hash x),
    same_iff String-discrete (hash x) (hash n),
    a.0,
    o.0,
  ),
  fresh-snoc x acc ns a.1 o.1,
)

node_map_from_unique :
    (acc xs : List DistilledNode)
    → HasUniqueIds xs
    → All (λ n. has (hash n) acc ≡ false) xs
    → node_map_from acc xs ≡ ok (acc ++ xs)
unfolding node_map_from
node_map_from_unique acc [] u a = rw append-nil refl
node_map_from_unique acc (x ∷ xs) u a =
    rw (a.0, put_fresh x acc a.0)
      (node_map_from_unique (acc ++ x ∷ []) xs u.1
          (fresh-snoc x acc xs a.1 (others (hash x) xs u.0))
        ∙ ap ok (append_assoc acc (x ∷ []) xs))

all_fresh : (xs : List DistilledNode) → All (λ n. has (hash n) [] ≡ false) xs
all_fresh [] = tt
all_fresh (x ∷ xs) = (refl, all_fresh xs)

pub unique_node_map_of : (xs : List DistilledNode) → HasUniqueIds xs → unique_node_map xs ≡ ok xs
unfolding unique_node_map
unique_node_map_of xs u = node_map_from_unique [] xs u (all_fresh xs)

pub get-delete :
    (h i : String) (xs : List DistilledNode)
    → HasUniqueIds xs
    → get h (delete i xs) ≡ (if same String-discrete i h then none else get h xs)
get-delete h i [] u = ground arith
get-delete h i (x ∷ xs) u = ground (
  arith,
  same_iff String-discrete (hash x) h,
  same_iff String-discrete (hash x) i,
  same_iff String-discrete i h,
  get-delete h i xs u.1,
  u.0,
)

pub HasUniqueIds-delete :
    (i : String) (xs : List DistilledNode) → HasUniqueIds xs → HasUniqueIds (delete i xs)
HasUniqueIds-delete i [] u = tt
HasUniqueIds-delete i (x ∷ xs) u =
    ground (arith, HasUniqueIds-delete i xs u.1, get-delete (hash x) i xs u.1)

pub get-delete_all :
    (h : String) (is : List String) (xs : List DistilledNode)
    → HasUniqueIds xs
    → get h (delete_all is xs) ≡ (if includes String-discrete is h then none else get h xs)
unfolding delete_all
get-delete_all h [] xs u = refl
get-delete_all h (i ∷ is) xs u =
    ground
      (arith, get-delete_all h is (delete i xs) (HasUniqueIds-delete i xs u), get-delete h i xs u)

pub HasUniqueIds-delete_all :
    (is : List String) (xs : List DistilledNode) → HasUniqueIds xs → HasUniqueIds (delete_all is xs)
unfolding delete_all
HasUniqueIds-delete_all [] xs u = u
HasUniqueIds-delete_all (i ∷ is) xs u =
    HasUniqueIds-delete_all is (delete i xs) (HasUniqueIds-delete i xs u)

get-put :
    (h : String) (n : DistilledNode) (xs : List DistilledNode)
    → get h (put n xs) ≡ (if same String-discrete (hash n) h then some n else get h xs)
get-put h n [] = refl
get-put h n (x ∷ xs) = ground (
  arith,
  same_iff String-discrete (hash x) (hash n),
  same_iff String-discrete (hash x) h,
  same_iff String-discrete (hash n) h,
  get-put h n xs,
)

HasUniqueIds-put :
    (n : DistilledNode) (xs : List DistilledNode) → HasUniqueIds xs → HasUniqueIds (put n xs)
HasUniqueIds-put n [] u = (refl, tt)
HasUniqueIds-put n (x ∷ xs) u = ground (
  arith,
  HasUniqueIds-put n xs u.1,
  get-put (hash x) n xs,
  same_iff String-discrete (hash x) (hash n),
  same_iff String-discrete (hash n) (hash x),
)

pub get-put_all :
    (h : String) (cs xs : List DistilledNode)
    → HasUniqueIds cs
    → get h (put_all cs xs) ≡ or_else (get h cs) (get h xs)
unfolding put_all
get-put_all h [] xs u = refl
get-put_all h (c ∷ cs) xs u = ground (
  arith,
  get-put_all h cs (put c xs) u.1,
  get-put h c xs,
  same_iff String-discrete (hash c) h,
  u.0,
)

pub HasUniqueIds-put_all :
    (cs xs : List DistilledNode) → HasUniqueIds xs → HasUniqueIds (put_all cs xs)
unfolding put_all
HasUniqueIds-put_all [] xs u = u
HasUniqueIds-put_all (c ∷ cs) xs u = HasUniqueIds-put_all cs (put c xs) (HasUniqueIds-put c xs u)

pub get-select :
    (p : DistilledNode → Bool) (h : String) (xs : List DistilledNode)
    → HasUniqueIds xs
    → get h (select p xs) ≡ keep_if p (get h xs)
get-select p h [] u = refl
get-select p h (x ∷ xs) u =
    ground (arith, get-select p h xs u.1, same_iff String-discrete (hash x) h, u.0)

pub HasUniqueIds-select :
    (p : DistilledNode → Bool) (xs : List DistilledNode)
    → HasUniqueIds xs
    → HasUniqueIds (select p xs)
HasUniqueIds-select p [] u = tt
HasUniqueIds-select p (x ∷ xs) u =
    ground (arith, HasUniqueIds-select p xs u.1, get-select p (hash x) xs u.1, u.0)

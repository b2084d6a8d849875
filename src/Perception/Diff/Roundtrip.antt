-- ===== src/Perception/Diff/Roundtrip.antt =====
-- Applying the difference of two observations to the first gives the second.
use rote.Prelude.{
  suc, String, Option, some, none, Bool, true, false, not, ◌&&◌, ◌||◌, List, [], ◌∷◌, ◌++◌, map,
  same_iff, length, includes, select, All, All-map, All-select, All-image, ◌≡◌, refl, ap, ◌∙◌,
  arith, String-discrete, if◌then◌else◌, ok, ==_iff,
}
use rote.Perception.Node.{DistilledNode, hash, DistilledNode-discrete}
use rote.Perception.Diff.{
  DiffError, ObservationDiff, get, has, is_some, is_added, is_updated, diff_of, diff_observations,
  check, delete_all, put_all, reorder, order, removed, apply_observation_diff,
}
use rote.Perception.Diff.Maps.{
  HasUniqueIds, or_else, keep_if, get-append, hash-get, unique_node_map_of, get-delete_all,
  HasUniqueIds-delete_all, get-put_all, HasUniqueIds-put_all, get-select, HasUniqueIds-select,
}
use rote.Perception.Diff.Order.{
  length_of_keys, includes-hash, HasDistinct-hash, unique_ids_of, get_self, in_order_of,
}

HasUniqueIds-append :
    (xs ys : List DistilledNode)
    → HasUniqueIds xs
    → HasUniqueIds ys
    → All (λ x. has (hash x) ys ≡ false) xs
    → HasUniqueIds (xs ++ ys)
HasUniqueIds-append [] ys u v a = v
HasUniqueIds-append (x ∷ xs) ys u v a =
    (ground (arith, get-append (hash x) xs ys, u.0, a.0), HasUniqueIds-append xs ys u.1 v a.1)

check_passes :
    {A : Type 0} (bad : A → Bool) (e : A → DiffError) (xs : List A)
    → All (λ x. bad x ≡ false) xs
    → check bad e xs ≡ ok tt
check_passes bad e [] a = refl
check_passes bad e (x ∷ xs) a = rw a.0 (check_passes bad e xs a.1)

module _ (base current : List DistilledNode) (ub : HasUniqueIds base)
    (uc : HasUniqueIds current) where
  abbrev added : List DistilledNode
  added = select (is_added base) current

  abbrev updated : List DistilledNode
  updated = select (is_updated base) current

  abbrev is_gone : DistilledNode → Bool
  is_gone n = not (has (hash n) current)

  abbrev gone : List String
  gone = map hash (select is_gone base)

  changed-HasUniqueIds : HasUniqueIds (updated ++ added)
  changed-HasUniqueIds =
      HasUniqueIds-append updated added (HasUniqueIds-select _ current uc)
        (HasUniqueIds-select _ current uc)
        (All-map _ _
          (λ n h. ground (arith, get-select (is_added base) (hash n) current uc, h.0, h.1)) updated
          (All-select _ (is_updated base) current (get_self current uc)))

  abbrev final : List DistilledNode
  final = put_all (updated ++ added) (delete_all gone base)

  gone_iff : (h : String) → includes String-discrete gone h ≡ is_some (keep_if is_gone (get h base))
  gone_iff h = includes-hash h (select is_gone base) ∙ ap is_some (get-select is_gone h base ub)

  -- What stands under `h` at the end, by what stands there in `current` and in `base`.
  merged : (h : String) (c b : Option DistilledNode) → Option DistilledNode
  merged h c b =
      or_else (or_else (keep_if (is_updated base) c) (keep_if (is_added base) c))
        (if is_some (keep_if is_gone b) then none else b)

  merged_lem :
      (h : String) (c b : Option DistilledNode)
      → get h current ≡ c
      → get h base ≡ b
      → merged h c b ≡ c
  unfolding merged
  merged_lem h none none ec eb = refl
  merged_lem h none (some m) ec eb = ground (arith, hash-get h base m eb)
  merged_lem h (some n) none ec eb = ground (arith, hash-get h current n ec)
  merged_lem h (some n) (some m) ec eb =
      ground
        (arith, hash-get h current n ec, hash-get h base m eb, same_iff DistilledNode-discrete m n)

  final-merged : (h : String) → get h final ≡ merged h (get h current) (get h base)
  unfolding merged
  final-merged h =
      rw
        (
          get-put_all h (updated ++ added) (delete_all gone base) changed-HasUniqueIds,
          get-append h updated added,
          get-select (is_updated base) h current uc,
          get-select (is_added base) h current uc,
          get-delete_all h gone base ub,
          gone_iff h,
        )
        refl

  final-get : (h : String) → get h final ≡ get h current
  final-get h = final-merged h ∙ merged_lem h (get h current) (get h base) refl refl

  final-HasUniqueIds : HasUniqueIds final
  final-HasUniqueIds =
      HasUniqueIds-put_all (updated ++ added) _ (HasUniqueIds-delete_all gone base ub)

  length-final : length final ≡ length current
  length-final = length_of_keys final current final-HasUniqueIds uc (λ h. ap is_some (final-get h))

  length-hashes : (xs : List DistilledNode) → length (map hash xs) ≡ length xs
  length-hashes [] = refl
  length-hashes (x ∷ xs) = ap suc (length-hashes xs)

  reordered : reorder final (map hash current) ≡ ok current
  unfolding reorder
  reordered = rw (unique_ids_of (map hash current) order (HasDistinct-hash current uc)) (
      rw (length-final, length-hashes current, (==_iff (length current) (length current)).1 refl)
        (in_order_of final current
          (All-map _ _ (λ n h. final-get (hash n) ∙ h) current (get_self current uc))))

  removed_checked : check (λ i. not (has i base)) DiffError.removed_missing gone ≡ ok tt
  removed_checked = check_passes _ _ gone (
      All-image _ hash (select is_gone base) (
        All-map _ _ (λ n h. ground (arith, h.0)) (select is_gone base)
          (All-select _ is_gone base (get_self base ub))))

  -- An updated node stands in the base, and is not removed.
  updated_stays :
      (n : DistilledNode) (b : Option DistilledNode)
      → get (hash n) base ≡ b
      → get (hash n) current ≡ some n
      → is_updated base n ≡ true
      → (not (has (hash n) base) || includes String-discrete gone (hash n)) ≡ false
  updated_stays n none e c u = ground arith
  updated_stays n (some m) e c u = ground (arith, gone_iff (hash n), hash-get (hash n) base m e)

  updated_checked :
      check
        (λ n. not (has (hash n) base) || includes String-discrete gone (hash n))
        (λ n. DiffError.updated_inactive (hash n))
        updated
      ≡ ok tt
  updated_checked = check_passes _ _ updated (
      All-map _ _ (λ n h. updated_stays n _ refl h.0 h.1) updated
        (All-select _ (is_updated base) current (get_self current uc)))

  added_checked :
      check
        (λ n. has (hash n) base && not (includes String-discrete gone (hash n)))
        (λ n. DiffError.added_exists (hash n))
        added
      ≡ ok tt
  added_checked = check_passes _ _ added (
      All-map _ _ (λ n h. ground (arith, h.1)) added
        (All-select _ (is_added base) current (get_self current uc)))

  pub diff_of-ok : diff_observations base current ≡ ok (diff_of base current)
  unfolding diff_observations
  diff_of-ok = rw (unique_node_map_of base ub) (rw (unique_node_map_of current uc) refl)

  pub apply_of-diff : apply_observation_diff base (diff_of base current) ≡ ok current
  unfolding apply_observation_diff
  apply_of-diff = rw (unique_node_map_of base ub) (
      rw (unique_ids_of gone removed (HasDistinct-hash _ (HasUniqueIds-select is_gone base ub))) (
        rw (unique_node_map_of (updated ++ added) changed-HasUniqueIds)
          (rw removed_checked (rw updated_checked (rw added_checked reordered)))))

-- For observations without repeated stable ids the difference exists, and applying it to the base
-- gives the current observation exactly, order included.
pub apply-diff :
    (base current : List DistilledNode)
    → HasUniqueIds base
    → HasUniqueIds current
    → (d : ObservationDiff) × (diff_observations base current ≡ ok d)
      × (apply_observation_diff base d ≡ ok current)
apply-diff base current ub uc =
    (diff_of base current, diff_of-ok base current ub uc, apply_of-diff base current ub uc)

-- ===== src/Broker/Shared/Lifecycle.antt =====
-- Consumers come and go, and the order stays.
use pulsar_lite.Prelude.{
  ℕ, true, false, Option, none, some, List, [], ◌∷◌, ◌⊎◌, inl, inr, All, ◌==◌, if◌then◌else◌, ◌≡◌,
  refl, sym, ◌∙◌, subst, arith, Bool-cases, Option-cases,
}
use pulsar_lite.Prelude.Maps.{
  get, insert_entry, remove_key, nat_key, get-insert_entry, get-remove_key, eq_nat_refl,
  eq_nat_sound,
}
use pulsar_lite.Broker.Shared.{Consumer, SharedDispatcher, consumers_in_order}
use pulsar_lite.Broker.Shared.Consumers.{
  insert_consumer_order, position_of, removed_at, remove_consumer_order, subtract_total_permits,
  AddError, add_consumer, remove_consumer,
}
use pulsar_lite.Broker.Shared.Turns.{IsSorted, IsAfter}
use pulsar_lite.Broker.Shared.Sorted.{
  Map, IsThere, IsOther, AllOnce, IsOrdered, same-consumers_in_order, put, insert_elem-put, All-put,
  AllOnce-put, in_order-none, in_order-some, put-insert_by, IsSorted-insert_by, without,
  removed_order, removed_order-position_of, All-without, AllOnce-without,
}

get-added :
    (m : Map) (id j : ℕ) (c : Consumer) → IsOther id j → get j (insert_entry id c m) ≡ get j m
get-added m id j c h =
    let n : (id == j) ≡ false = ground arith in
    get-insert_entry id j c m ∙ rw (n, if◌then◌else◌) refl

get-here : (m : Map) (id : ℕ) (c : Consumer) → get id (insert_entry id c m) ≡ some c
get-here m id c =
    let y : (id == id) ≡ true = eq_nat_refl id in
    get-insert_entry id id c m ∙ rw (y, if◌then◌else◌) refl

get-kept : (m : Map) (id j : ℕ) → IsOther id j → get j (remove_key id m) ≡ get j m
get-kept m id j h =
    let n : (id == j) ≡ false = ground arith in get-remove_key id j m ∙ rw (n, if◌then◌else◌) refl

All-map-of :
    (m n : Map) (l : List ℕ) (id : ℕ)
    → ((j : ℕ) → IsOther id j → get j n ≡ get j m)
    → All (IsOther id) l
    → All (λ (j : ℕ). get j n ≡ get j m) l
All-map-of m n [] id f v = tt
All-map-of m n (j ∷ l) id f (h, v) = (f j h, All-map-of m n l id f v)

All-IsThere :
    (m n : Map) (l : List ℕ)
    → All (λ (j : ℕ). get j n ≡ get j m) l
    → All (IsThere m) l
    → All (IsThere n) l
All-IsThere m n [] v w = tt
All-IsThere m n (j ∷ l) (h, v) ((c, at), w) = ((c, h ∙ at), All-IsThere m n l v w)

-- An id that is not in the map is not in the order.
fresh-IsOther :
    (m : Map) (id : ℕ) (l : List ℕ) → get id m ≡ none → All (IsThere m) l → All (IsOther id) l
fresh-IsOther m id [] h v = tt
fresh-IsOther m id (j ∷ l) h ((c, at), v) = (
  elim (Bool-cases (j == id)) [
    | inl y ↦ absurd (let e = subst (λ k. get k m ≡ some c) (eq_nat_sound j id y) at in cc)
    | inr n ↦ n
  ],
  fresh-IsOther m id l h v,
)

tail-in_order :
    (P : Consumer → Type 0) (m : Map) (j : ℕ) (l : List ℕ)
    → All P (consumers_in_order m (j ∷ l))
    → All P (consumers_in_order m l)
tail-in_order P m j l v = elim (Option-cases (get j m)) [
  | inl gone ↦ subst (All P) (in_order-none m j l gone) v
  | inr (c, at) ↦ (subst (All P) (in_order-some m j l c at) v).1
]

All-in_order-without :
    (P : Consumer → Type 0) (m : Map) (id : ℕ) (l : List ℕ)
    → All P (consumers_in_order m l)
    → All P (consumers_in_order m (without id l))
unfolding without
All-in_order-without P m id [] v = v
All-in_order-without P m id (j ∷ l) v = elim (Bool-cases (j == id)) [
  | inl y ↦ rw (y, if◌then◌else◌) (tail-in_order P m j l v)
  | inr n ↦
      rw (n, if◌then◌else◌)
        (elim (Option-cases (get j m)) [
          | inl gone ↦
              subst (All P) (sym (in_order-none m j (without id l) gone))
                (All-in_order-without P m id l (subst (All P) (in_order-none m j l gone) v))
          | inr (c, at) ↦
              let w = subst (All P) (in_order-some m j l c at) v in
              subst (All P) (sym (in_order-some m j (without id l) c at))
                (w.0, All-in_order-without P m id l w.1)
        ])
]

tail-IsSorted :
    (m : Map) (j : ℕ) (l : List ℕ)
    → IsSorted (consumers_in_order m (j ∷ l))
    → IsSorted (consumers_in_order m l)
tail-IsSorted m j l v = elim (Option-cases (get j m)) [
  | inl gone ↦ subst IsSorted (in_order-none m j l gone) v
  | inr (c, at) ↦ (subst IsSorted (in_order-some m j l c at) v).1
]

IsSorted-without :
    (m : Map) (id : ℕ) (l : List ℕ)
    → IsSorted (consumers_in_order m l)
    → IsSorted (consumers_in_order m (without id l))
unfolding without
IsSorted-without m id [] v = v
IsSorted-without m id (j ∷ l) v = elim (Bool-cases (j == id)) [
  | inl y ↦ rw (y, if◌then◌else◌) (tail-IsSorted m j l v)
  | inr n ↦
      rw (n, if◌then◌else◌)
        (elim (Option-cases (get j m)) [
          | inl gone ↦
              subst IsSorted (sym (in_order-none m j (without id l) gone))
                (IsSorted-without m id l (subst IsSorted (in_order-none m j l gone) v))
          | inr (c, at) ↦
              let w = subst IsSorted (in_order-some m j l c at) v in
              subst IsSorted (sym (in_order-some m j (without id l) c at))
                (All-in_order-without (IsAfter c) m id l w.0, IsSorted-without m id l w.1)
        ])
]

removed_at-order :
    (d : SharedDispatcher) (o : Option ℕ)
    → (removed_at d o).consumer_order ≡ removed_order d.consumer_order o
removed_at-order d none = refl
removed_at-order d (some n) = refl

removed_at-consumers :
    (d : SharedDispatcher) (o : Option ℕ) → (removed_at d o).consumers ≡ d.consumers
removed_at-consumers d none = refl
removed_at-consumers d (some n) = refl

-- The map and the order are what counts.
abbrev pub IsGood : Map → List ℕ → Type 0
IsGood m l = All (IsThere m) l × AllOnce l × IsSorted (consumers_in_order m l)

pub good-IsOrdered :
    (d : SharedDispatcher) (m : Map) (l : List ℕ)
    → d.consumers ≡ m
    → d.consumer_order ≡ l
    → IsGood m l
    → IsOrdered d
good-IsOrdered d m l e f v =
    let (there, once, sorted) =
      subst (λ x. IsGood x d.consumer_order) (sym e) (subst (IsGood m) (sym f) v) in
    record { there = there; once = once; sorted = sorted }

added-IsGood :
    (m : Map) (l : List ℕ) (c : Consumer)
    → get c.consumer_id m ≡ none
    → IsGood m l
    → IsGood
        (insert_entry c.consumer_id c m)
        (put (insert_entry c.consumer_id c m) c.consumer_id c.priority_level l)
added-IsGood m l c h (there, once, sorted) =
    let id = c.consumer_id in
    let n = insert_entry id c m in
    let other = fresh-IsOther m id l h there in
    let same = All-map-of m n l id (λ j o. get-added m id j c o) other in
    (
      All-put (IsThere n) n id c.priority_level l (c, get-here m id c)
          (All-IsThere m n l same there),
      AllOnce-put n id c.priority_level l other once,
      subst IsSorted (sym (put-insert_by n id c l (get-here m id c))) (
          IsSorted-insert_by c (consumers_in_order n l)
            (subst IsSorted (sym (same-consumers_in_order n m l same)) sorted)),
    )

removed-IsGood :
    (m : Map) (l : List ℕ) (id : ℕ) → IsGood m l → IsGood (remove_key id m) (without id l)
removed-IsGood m l id (there, once, sorted) =
    let (once', other) = AllOnce-without id l once in
    let same = All-map-of m (remove_key id m) (without id l) id (λ j o. get-kept m id j o) other in
    (
      All-IsThere m (remove_key id m) (without id l) same (All-without (IsThere m) id l there),
      once',
      subst IsSorted (sym (same-consumers_in_order (remove_key id m) m (without id l) same))
          (IsSorted-without m id l sorted),
    )

abbrev pub or_state : SharedDispatcher → SharedDispatcher ⊎ AddError → SharedDispatcher
or_state d (inl e) = e
or_state d (inr e) = d

pub added-IsOrdered :
    (d : SharedDispatcher) (c : Consumer) → IsOrdered d → IsOrdered (or_state d (add_consumer d c))
unfolding add_consumer insert_consumer_order
added-IsOrdered d c v = elim (Option-cases (get c.consumer_id d.consumers)) [
  | inr (old, there) ↦ rw (add_consumer, there) v
  | inl fresh ↦
      rw (add_consumer, fresh)
        (good-IsOrdered _ (insert_entry c.consumer_id c d.consumers) _ refl
          (insert_elem-put (insert_entry c.consumer_id c d.consumers) c.consumer_id c.priority_level
            d.consumer_order)
          (added-IsGood d.consumers d.consumer_order c fresh (v.there, v.once, v.sorted)))
]

pub remove_consumer-IsOrdered :
    (d : SharedDispatcher) (id : ℕ) → IsOrdered d → IsOrdered (remove_consumer d id).0
unfolding remove_consumer remove_consumer_order subtract_total_permits
remove_consumer-IsOrdered d id v = elim (Option-cases (get id d.consumers)) [
  | inl gone ↦ rw (remove_consumer, gone) v
  | inr (c, there) ↦
      rw (remove_consumer, there)
        (good-IsOrdered _ (remove_key id d.consumers) (without id d.consumer_order)
          (removed_at-consumers (record d { consumers = remove_key id d.consumers })
            (position_of id d.consumer_order))
          (removed_at-order (record d { consumers = remove_key id d.consumers })
              (position_of id d.consumer_order)
            ∙ removed_order-position_of id d.consumer_order)
          (removed-IsGood d.consumers d.consumer_order id (v.there, v.once, v.sorted)))
]

-- ===== src/Broker/Failover/Elected.antt =====
-- The first consumer in the order is the active one, and each consumer knows whether it is that.
use pulsar_lite.Prelude.{
  ℕ, Bool, true, Option, none, some, List, [], ◌∷◌, ◌++◌, map, All, ◌⊎◌, inl, inr, ◌==◌,
  if◌then◌else◌, ◌≡◌, refl, sym, ap, ◌∙◌, subst, arith, Bool-cases, Option-cases,
}
use pulsar_lite.Broker.KeyShared.{sort_by, insert_sorted}
use pulsar_lite.Broker.Failover.{
  Consumer, FailoverDispatcher, select_active_consumer_id, same_id, precedes, sort_consumers,
  schedule, tell, notify_active_consumer_change, clear_active_consumer,
  pick_and_schedule_active_consumer, add_consumer, put_in, find_consumer, remove_first,
  after_removal, remove_consumer, AddError,
}

All-insert_sorted {κ} :
    {A : Type 0} (P : A → Type κ) (lt : A → A → Bool) (a : A) (l : List A)
    → P a
    → All P l
    → All P (insert_sorted lt a l)
unfolding insert_sorted
All-insert_sorted P lt a [] h v = (h, tt)
All-insert_sorted P lt a (b ∷ l) h (w, v) = elim (Bool-cases (lt b a)) [
  | inl y ↦ rw (y, if◌then◌else◌) (w, All-insert_sorted P lt a l h v)
  | inr n ↦ rw (n, if◌then◌else◌) (h, (w, v))
]

pub All-sort_by {κ} :
    {A : Type 0} (P : A → Type κ) (lt : A → A → Bool) (l : List A) → All P l → All P (sort_by lt l)
unfolding sort_by
All-sort_by P lt [] v = tt
All-sort_by P lt (a ∷ l) (h, v) = All-insert_sorted P lt a (sort_by lt l) h (All-sort_by P lt l v)

pub All-last {κ} :
    {A : Type 0} (P : A → Type κ) (l : List A) (a : A) → All P l → P a → All P (l ++ a ∷ [])
All-last P [] a v h = (h, tt)
All-last P (b ∷ l) a (w, v) h = (w, All-last P l a v h)

All-weaken {κ} :
    {A : Type 0} (P Q : A → Type κ) (l : List A) → ((a : A) → P a → Q a) → All P l → All Q l
All-weaken P Q [] f v = tt
All-weaken P Q (a ∷ l) f (h, v) = (f a h, All-weaken P Q l f v)

pub All-map {κ} :
    {A : Type 0} (P Q : A → Type κ) (g : A → A) (l : List A)
    → ((a : A) → P a → Q (g a))
    → All P l
    → All Q (map g l)
All-map P Q g [] f v = tt
All-map P Q g (a ∷ l) f (h, v) = (f a h, All-map P Q g l f v)

-- The consumer knows whether it is the active one.
abbrev pub Knows : Option ℕ → Consumer → Type 0
Knows active c = c.is_active_consumer ≡ same_id (some c.consumer_id) active

-- The first consumer is the active one, or there is none, and every consumer knows.
pub record IsElected (d : FailoverDispatcher) : Type 0 where
  pub is_first : d.active_consumer_id ≡ select_active_consumer_id d.consumers
  pub known : All (Knows d.active_consumer_id) d.consumers

pub same_id-eq : (a b : Option ℕ) → same_id a b ≡ true → a ≡ b
same_id-eq none none h = refl
same_id-eq (some a) (some b) h = let e : a ≡ b = ground arith in ap some e
same_id-eq none (some b) h = absurd (cc)
same_id-eq (some a) none h = absurd (cc)

pub select-map :
    (g : Consumer → Consumer) (l : List Consumer)
    → ((c : Consumer) → (g c).consumer_id ≡ c.consumer_id)
    → select_active_consumer_id (map g l) ≡ select_active_consumer_id l
select-map g [] h = refl
select-map g (c ∷ l) h = ap some (h c)

select-schedule :
    (selected : Option ℕ) (l : List Consumer)
    → select_active_consumer_id (schedule selected l) ≡ select_active_consumer_id l
select-schedule none l = select-map clear_active_consumer l (λ c. refl)
select-schedule (some id) l = select-map (notify_active_consumer_change id) l (λ c. refl)

schedule-Knows :
    (selected : Option ℕ) (l : List Consumer) → All (Knows selected) (schedule selected l)
schedule-Knows none [] = tt
schedule-Knows none (c ∷ l) = (refl, schedule-Knows none l)
schedule-Knows (some id) [] = tt
schedule-Knows (some id) (c ∷ l) = (refl, schedule-Knows (some id) l)

-- The consumers all know, but for one that is the new one.
abbrev KnowsOrIs : ℕ → Option ℕ → Consumer → Type 0
KnowsOrIs added active c = ((c.consumer_id == added) ≡ true) ⊎ Knows active c

tell-Knows :
    (added id : ℕ) (l : List Consumer)
    → All (KnowsOrIs added (some id)) l
    → All (Knows (some id)) (tell added (some id) l)
tell-Knows added id l v =
    All-map (KnowsOrIs added (some id)) (Knows (some id)) _ l
      (λ c w. elim (Bool-cases (c.consumer_id == added)) [
        | inl y ↦ rw (y, if◌then◌else◌) refl
        | inr n ↦ elim w [ inl y ↦ absurd (cc) | inr k ↦ rw (n, if◌then◌else◌) k ]
      ])
      v

-- Picking leaves it so, where all knew the one that was active before, if it stays.
pub pick-IsElected :
    (d : FailoverDispatcher)
    → All (Knows d.active_consumer_id) d.consumers
    → IsElected (pick_and_schedule_active_consumer d).0
unfolding pick_and_schedule_active_consumer
pick-IsElected d v =
    elim (Bool-cases (same_id (select_active_consumer_id d.consumers) d.active_consumer_id)) [
      | inl y ↦ rw (y, if◌then◌else◌) (record { is_first = sym (same_id-eq _ _ y); known = v })
      | inr n ↦
          rw (n, if◌then◌else◌)
            (record {
              is_first = sym (select-schedule (select_active_consumer_id d.consumers) d.consumers);
              known = schedule-Knows (select_active_consumer_id d.consumers) d.consumers;
            })
    ]

select-insert_sorted :
    (a : Consumer) (l : List Consumer)
    → (id : ℕ) × (select_active_consumer_id (insert_sorted precedes a l) ≡ some id)
unfolding insert_sorted
select-insert_sorted a [] = (a.consumer_id, refl)
select-insert_sorted a (b ∷ l) = elim (Bool-cases (precedes b a)) [
  | inl y ↦ (b.consumer_id, rw (y, if◌then◌else◌) refl)
  | inr n ↦ (a.consumer_id, rw (n, if◌then◌else◌) refl)
]

select-sort_consumers :
    (l : List Consumer) (c : Consumer)
    → (id : ℕ) × (select_active_consumer_id (sort_consumers (l ++ c ∷ [])) ≡ some id)
unfolding sort_by
select-sort_consumers [] c = select-insert_sorted c []
select-sort_consumers (b ∷ l) c = select-insert_sorted b (sort_by precedes (l ++ c ∷ []))

select-tell :
    (added : ℕ) (active : Option ℕ) (l : List Consumer)
    → select_active_consumer_id (tell added active l) ≡ select_active_consumer_id l
select-tell added none l = refl
select-tell added (some id) l = select-map _ l (λ c. elim (Bool-cases (c.consumer_id == added)) [
  | inl y ↦ rw (y, if◌then◌else◌) refl
  | inr n ↦ rw (n, if◌then◌else◌) refl
])

-- The active consumer stays, and the new one is told of it.
kept-IsElected :
    (d : FailoverDispatcher) (added id : ℕ)
    → select_active_consumer_id d.consumers ≡ some id
    → d.active_consumer_id ≡ some id
    → All (KnowsOrIs added d.active_consumer_id) d.consumers
    → (total : ℕ)
    → IsElected (record d {
      total_available_permits = total;
      consumers = tell added d.active_consumer_id d.consumers;
    })
kept-IsElected d added id first active v total = record {
  is_first = active ∙ sym first ∙ sym (select-tell added d.active_consumer_id d.consumers);
  known =
      subst (λ a. All (Knows a) (tell added a d.consumers)) (sym active)
        (tell-Knows added id d.consumers
          (subst (λ a. All (KnowsOrIs added a) d.consumers) active v));
}

put_in-IsElected : (d : FailoverDispatcher) (c : Consumer) → IsElected d → IsElected (put_in d c)
unfolding put_in pick_and_schedule_active_consumer
put_in-IsElected d c v =
    let l = sort_consumers (d.consumers ++ c ∷ []) in
    let (id, first) = select-sort_consumers d.consumers c in
    let all : All (KnowsOrIs c.consumer_id d.active_consumer_id) l =
      All-sort_by (KnowsOrIs c.consumer_id d.active_consumer_id) precedes (d.consumers ++ c ∷ []) (
        All-last (KnowsOrIs c.consumer_id d.active_consumer_id) d.consumers c
          (All-weaken (Knows d.active_consumer_id) (KnowsOrIs c.consumer_id d.active_consumer_id)
            d.consumers (λ b k. inr k) v.known)
          (inl (ground arith))) in
    elim (Bool-cases (same_id (select_active_consumer_id l) d.active_consumer_id)) [
      | inl y ↦
          rw (y, if◌then◌else◌)
            (kept-IsElected (record d { consumers = l }) c.consumer_id id first
              (sym (same_id-eq _ _ y) ∙ first) all _)
      | inr n ↦
          rw (n, if◌then◌else◌)
            (record {
              is_first = sym (select-schedule (select_active_consumer_id l) l);
              known = schedule-Knows (select_active_consumer_id l) l;
            })
    ]

abbrev pub or_state : FailoverDispatcher → FailoverDispatcher ⊎ AddError → FailoverDispatcher
or_state d (inl e) = e
or_state d (inr e) = d

-- Where the first consumer is the active one and all know whether they are, that is so after
-- add_consumer, whether the new consumer becomes the active one or not.
pub add_consumer-IsElected :
    (d e : FailoverDispatcher) (c : Consumer) → IsElected d → add_consumer d c ≡ inl e → IsElected e
unfolding add_consumer
add_consumer-IsElected d e c v h = elim (Option-cases (find_consumer c.consumer_id d.consumers)) [
  | inl fresh ↦
      subst IsElected (ap (or_state d) (rw (add_consumer, fresh) at h)) (put_in-IsElected d c v)
  | inr (old, there) ↦ absurd (let gone = rw (add_consumer, there) at h in cc)
]

All-remove_first :
    (P : Consumer → Type 0) (id : ℕ) (l : List Consumer) → All P l → All P (remove_first id l)
unfolding remove_first
All-remove_first P id [] v = tt
All-remove_first P id (c ∷ l) (h, v) = elim (Bool-cases (c.consumer_id == id)) [
  | inl y ↦ rw (y, if◌then◌else◌) v
  | inr n ↦ rw (n, if◌then◌else◌) (h, All-remove_first P id l v)
]

after_removal-IsElected :
    (d : FailoverDispatcher) (l : List Consumer)
    → All (Knows d.active_consumer_id) l
    → IsElected (after_removal d l)
after_removal-IsElected d [] v = record { is_first = refl; known = tt }
after_removal-IsElected d (c ∷ l) v = pick-IsElected (record d { consumers = c ∷ l }) v

-- The same holds after remove_consumer, whether the consumer was there or not, and whether it was
-- the active one or the last one.
pub remove_consumer-IsElected :
    (d : FailoverDispatcher) (id : ℕ) → IsElected d → IsElected (remove_consumer d id).0
unfolding remove_consumer
remove_consumer-IsElected d id v = elim (Option-cases (find_consumer id d.consumers)) [
  | inl gone ↦ rw (remove_consumer, gone) v
  | inr (c, there) ↦
      rw (remove_consumer, there)
        (after_removal-IsElected d (sort_consumers (remove_first id d.consumers)) (
          All-sort_by (Knows d.active_consumer_id) precedes (remove_first id d.consumers)
            (All-remove_first (Knows d.active_consumer_id) id d.consumers v.known)))
]

-- ===== src/Broker/Failover/Order.antt =====
-- The order of the consumers of a failover subscription.
use pulsar_lite.Prelude.{
  ℕ, Bool, true, false, ◌&&◌, ◌||◌, Option, none, some, List, [], ◌∷◌, All, ◌==◌, ltb,
  if◌then◌else◌, ◌≡◌, inl, inr, refl, ap, ◌∙◌, subst, arith, Bool-cases, Option-cases, map, ◌++◌,
}
use pulsar_lite.Prelude.Maps.{eq_bytes, lt_bytes}
use pulsar_lite.Prelude.Int.{lt_int, eq_int, ℤ}
use pulsar_lite.Broker.KeyShared.{sort_by, insert_sorted}
use pulsar_lite.Broker.Failover.{
  Consumer, FailoverDispatcher, precedes, sort_consumers, schedule, tell, find_consumer,
  get_active_consumer, select_active_consumer_id, notify_active_consumer_change,
  clear_active_consumer, pick_and_schedule_active_consumer, put_in, add_consumer, remove_first,
  after_removal, remove_consumer, same_id,
}
use pulsar_lite.Broker.Failover.Elected.{
  IsElected, All-map, or_state, add_consumer-IsElected, remove_consumer-IsElected,
}

name_before : List ℕ → ℕ → List ℕ → ℕ → Bool
name_before x i y j = lt_bytes x y || (eq_bytes x y && ltb i j)

-- Not before, and not before again.
name_before_trans :
    (x y z : List ℕ) (i j k : ℕ)
    → name_before x i y j ≡ false
    → name_before y j z k ≡ false
    → name_before x i z k ≡ false
unfolding name_before
name_before_trans [] [] [] i j k h g = ground arith
name_before_trans [] (b ∷ y) z i j k h g = absurd (cc)
name_before_trans [] [] (c ∷ z) i j k h g = absurd (cc)
name_before_trans (a ∷ x) y [] i j k h g = refl
name_before_trans (a ∷ x) [] (c ∷ z) i j k h g = absurd (cc)
name_before_trans (a ∷ x) (b ∷ y) (c ∷ z) i j k h g = ground (arith, name_before_trans x y z i j k)

abbrev level_before : ℤ → ℤ → Bool → Bool
level_before p q r = lt_int q p || (eq_int q p && r)

level_before_trans :
    (p q r : ℤ) (a b c : Bool)
    → (a ≡ false → b ≡ false → c ≡ false)
    → level_before p q a ≡ false
    → level_before q r b ≡ false
    → level_before p r c ≡ false
level_before_trans p q r a b c f h g = ground arith

precedes_trans :
    (a b c : Consumer) → precedes a b ≡ false → precedes b c ≡ false → precedes a c ≡ false
unfolding name_before
precedes_trans a b c h k =
    level_before_trans a.priority_level b.priority_level c.priority_level _ _ _
      (name_before_trans a.consumer_name b.consumer_name c.consumer_name a.consumer_id b.consumer_id
        c.consumer_id)
      h k

name_before_asym :
    (x y : List ℕ) (i j : ℕ) → name_before x i y j ≡ true → name_before y j x i ≡ false
unfolding name_before
name_before_asym [] [] i j h = ground arith
name_before_asym [] (b ∷ y) i j h = refl
name_before_asym (a ∷ x) [] i j h = absurd (cc)
name_before_asym (a ∷ x) (b ∷ y) i j h = ground (arith, name_before_asym x y i j)

level_before_asym :
    (p q : ℤ) (a b : Bool)
    → (a ≡ true → b ≡ false)
    → level_before p q a ≡ true
    → level_before q p b ≡ false
level_before_asym p q a b f h = ground arith

precedes_asym : (a b : Consumer) → precedes a b ≡ true → precedes b a ≡ false
unfolding name_before
precedes_asym a b h =
    level_before_asym a.priority_level b.priority_level _ _
      (name_before_asym a.consumer_name b.consumer_name a.consumer_id b.consumer_id) h

-- No consumer of the list precedes its first.
abbrev pub Leads : List Consumer → Type 0
Leads [] = Unit {0}
Leads (a ∷ l) = All (λ (x : Consumer). precedes x a ≡ false) (a ∷ l)

All-behind :
    (a b : Consumer) (l : List Consumer)
    → precedes b a ≡ false
    → All (λ (x : Consumer). precedes x b ≡ false) l
    → All (λ (x : Consumer). precedes x a ≡ false) l
All-behind a b [] h v = tt
All-behind a b (c ∷ l) h (w, v) = (precedes_trans c b a w h, All-behind a b l h v)

All-put :
    (P : Consumer → Type 0) (a : Consumer) (l : List Consumer)
    → P a
    → All P l
    → All P (insert_sorted precedes a l)
unfolding insert_sorted
All-put P a [] h v = (h, tt)
All-put P a (b ∷ l) h (w, v) = elim (Bool-cases (precedes b a)) [
  | inl y ↦ rw (y, if◌then◌else◌) (w, All-put P a l h v)
  | inr n ↦ rw (n, if◌then◌else◌) (h, (w, v))
]

precedes_irrefl : (a : Consumer) → precedes a a ≡ false
precedes_irrefl a = elim (Bool-cases (precedes a a)) [
  | inl y ↦ absurd (let n = precedes_asym a a y in cc)
  | inr n ↦ n
]

Leads-insert_sorted :
    (a : Consumer) (l : List Consumer) → Leads l → Leads (insert_sorted precedes a l)
unfolding insert_sorted
Leads-insert_sorted a [] v = (precedes_irrefl a, tt)
Leads-insert_sorted a (b ∷ l) (w, v) = elim (Bool-cases (precedes b a)) [
  | inl y ↦
      rw (y, if◌then◌else◌) (w, All-put (λ x. precedes x b ≡ false) a l (precedes_asym b a y) v)
  | inr n ↦ rw (n, if◌then◌else◌) (precedes_irrefl a, (n, All-behind a b l n v))
]

pub Leads-sort_consumers : (l : List Consumer) → Leads (sort_consumers l)
unfolding sort_by
Leads-sort_consumers [] = tt
Leads-sort_consumers (a ∷ l) = Leads-insert_sorted a (sort_by precedes l) (Leads-sort_consumers l)

pub Leads-map :
    (g : Consumer → Consumer) (l : List Consumer)
    → ((a b : Consumer) → precedes (g a) (g b) ≡ precedes a b)
    → Leads l
    → Leads (map g l)
Leads-map g [] f v = tt
Leads-map g (a ∷ l) f (w, v) = (
  f a a ∙ w,
  All-map (λ x. precedes x a ≡ false) (λ x. precedes x (g a) ≡ false) g l (λ b h. f b a ∙ h) v,
)

Leads-schedule : (selected : Option ℕ) (l : List Consumer) → Leads l → Leads (schedule selected l)
Leads-schedule none l v = Leads-map clear_active_consumer l (λ a b. refl) v
Leads-schedule (some id) l v = Leads-map (notify_active_consumer_change id) l (λ a b. refl) v

precedes-told :
    (id : ℕ) (p q : Bool) (a b : Consumer)
    → precedes
        (if p then notify_active_consumer_change id a else a)
        (if q then notify_active_consumer_change id b else b)
      ≡ precedes a b
precedes-told id true true a b = refl
precedes-told id true false a b = refl
precedes-told id false true a b = refl
precedes-told id false false a b = refl

Leads-tell :
    (added : ℕ) (active : Option ℕ) (l : List Consumer) → Leads l → Leads (tell added active l)
Leads-tell added none l v = v
Leads-tell added (some id) l v =
    Leads-map _ l (λ a b. precedes-told id (a.consumer_id == added) (b.consumer_id == added) a b) v

-- The first consumer is the active one, every consumer knows whether it is that, and none precedes
-- it.
pub record IsLed (d : FailoverDispatcher) : Type 0 where
  pub elected : IsElected d
  pub leads : Leads d.consumers

pub pick-Leads :
    (d : FailoverDispatcher)
    → Leads d.consumers
    → Leads (pick_and_schedule_active_consumer d).0.consumers
unfolding pick_and_schedule_active_consumer
pick-Leads d v =
    elim (Bool-cases (same_id (select_active_consumer_id d.consumers) d.active_consumer_id)) [
      | inl y ↦ rw (y, if◌then◌else◌) v
      | inr n ↦ rw (n, if◌then◌else◌) (Leads-schedule _ d.consumers v)
    ]

put_in-Leads : (d : FailoverDispatcher) (c : Consumer) → Leads (put_in d c).consumers
unfolding put_in pick_and_schedule_active_consumer
put_in-Leads d c =
    let l = sort_consumers (d.consumers ++ c ∷ []) in
    let v = Leads-sort_consumers (d.consumers ++ c ∷ []) in
    elim (Bool-cases (same_id (select_active_consumer_id l) d.active_consumer_id)) [
      | inl y ↦ rw (y, if◌then◌else◌) (Leads-tell c.consumer_id d.active_consumer_id l v)
      | inr n ↦ rw (n, if◌then◌else◌) (Leads-schedule _ l v)
    ]

pub add_consumer-IsLed :
    (d e : FailoverDispatcher) (c : Consumer) → IsLed d → add_consumer d c ≡ inl e → IsLed e
unfolding add_consumer
add_consumer-IsLed d e c v h = elim (Option-cases (find_consumer c.consumer_id d.consumers)) [
  | inl fresh ↦ record {
    elected = add_consumer-IsElected d e c v.elected h;
    leads =
        subst (λ (f : FailoverDispatcher). Leads f.consumers)
          (ap (or_state d) (rw (add_consumer, fresh) at h)) (put_in-Leads d c);
  }
  | inr (old, there) ↦ absurd (let gone = rw (add_consumer, there) at h in cc)
]

after_removal-Leads :
    (d : FailoverDispatcher) (l : List Consumer) → Leads l → Leads (after_removal d l).consumers
after_removal-Leads d [] v = tt
after_removal-Leads d (c ∷ l) v = pick-Leads (record d { consumers = c ∷ l }) v

pub remove_consumer-IsLed :
    (d : FailoverDispatcher) (id : ℕ) → IsLed d → IsLed (remove_consumer d id).0
unfolding remove_consumer
remove_consumer-IsLed d id v = elim (Option-cases (find_consumer id d.consumers)) [
  | inl gone ↦ rw (remove_consumer, gone) v
  | inr (c, there) ↦ record {
    elected = remove_consumer-IsElected d id v.elected;
    leads =
        rw (remove_consumer, there)
          (after_removal-Leads d (sort_consumers (remove_first id d.consumers))
            (Leads-sort_consumers (remove_first id d.consumers)));
  }
]

abbrev pub IsActiveOf : FailoverDispatcher → Consumer → Type 0
IsActiveOf d a =
    (get_active_consumer d ≡ some a)
    × (a.is_active_consumer ≡ true)
    × All (λ (x : Consumer). precedes x a ≡ false) d.consumers

first-IsActiveOf :
    (d : FailoverDispatcher) (a : Consumer) (l : List Consumer)
    → IsLed (record d { consumers = a ∷ l })
    → IsActiveOf (record d { consumers = a ∷ l }) a
unfolding find_consumer
first-IsActiveOf d a l v =
    let s : (a.consumer_id == a.consumer_id) ≡ true = ground arith in
    let first = v.elected.is_first in
    (
      rw (first, s, if◌then◌else◌) refl,
      v.elected.known.0 ∙ ap (same_id (some a.consumer_id)) first ∙ s,
      v.leads,
    )

some-IsActiveOf :
    (d : FailoverDispatcher) (l : List Consumer) (id : ℕ) (c : Consumer)
    → IsLed (record d { consumers = l })
    → find_consumer id l ≡ some c
    → (a : Consumer) × IsActiveOf (record d { consumers = l }) a
unfolding find_consumer
some-IsActiveOf d [] id c v h = absurd (cc)
some-IsActiveOf d (a ∷ l) id c v h = (a, first-IsActiveOf d a l v)

pub get_active_consumer-IsLed :
    (d : FailoverDispatcher) (id : ℕ) (c : Consumer)
    → IsLed d
    → find_consumer id d.consumers ≡ some c
    → (a : Consumer) × IsActiveOf d a
get_active_consumer-IsLed d id c v h = some-IsActiveOf d d.consumers id c v h

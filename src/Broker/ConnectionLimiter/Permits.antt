-- ===== src/Broker/ConnectionLimiter/Permits.antt =====
-- The counters of connection_limiter.rs against the permits that are held.
use pulsar_lite.Prelude.{
  ℕ, suc, ◌+◌, ◌-◌, ◌<◌, ◌≤◌, false, none, List, [], ◌∷◌, ◌≡◌, ◌⊎◌, inl, inr, sym, ap, ◌∙◌, subst,
  length, ◌==◌, if◌then◌else◌, arith, Option-cases, Bool-cases,
}
use pulsar_lite.Prelude.Maps.{
  nat_key, get, eq_nat_sound, insert_entry, get-insert_entry, get-remove_key, weight,
}
use pulsar_lite.Broker.ConnectionLimiter.{
  ConnectionLimiterState, Acquired, permit, refused, or_default, is_reached, try_acquire, release,
  lower_ip,
}

-- How many of the permits are for the address.
unfoldable pub held_by : ℕ → List ℕ → ℕ
held_by ip [] = 0
held_by ip (p ∷ ps) = weight (p == ip) + held_by ip ps

-- The state counts the permits that are held, and keeps within its limits.
pub record IsCounted (state : ConnectionLimiterState) (permits : List ℕ) : Type 0 where
  pub total : state.total_connections ≡ length permits
  pub per_ip : (ip : ℕ) → or_default (get ip state.connections_per_ip) ≡ held_by ip permits
  pub within : (state.max_connections ≡ 0) ⊎ (length permits ≤ state.max_connections)
  pub within_ip :
      (state.max_connections_per_ip ≡ 0)
      ⊎ ((ip : ℕ) → held_by ip permits ≤ state.max_connections_per_ip)

-- Permits come and go: a refused call leaves them as they are, and any permit that is held may be
-- dropped.
unfoldable pub drop_permit : ℕ → List ℕ → List ℕ
drop_permit ip [] = []
drop_permit ip (p ∷ ps) = if p == ip then ps else p ∷ drop_permit ip ps

abbrev pub keep_permit : Acquired → List ℕ → List ℕ
keep_permit (permit ip) permits = ip ∷ permits
keep_permit (refused e) permits = permits

per_ip-insert :
    (ip j n : ℕ) (m : List (ℕ × ℕ))
    → or_default (get j (insert_entry ip n m)) ≡ (if ip == j then n else or_default (get j m))
per_ip-insert ip j n m = rw (get-insert_entry ip j n m) (ground arith)

pub is_reached_room :
    (limit count : ℕ) → is_reached limit count ≡ false → (limit ≡ 0) ⊎ (suc count ≤ limit)
is_reached_room limit count h = ground arith

pub per_ip-acquire :
    (state : ConnectionLimiterState) (permits : List ℕ) (ip : ℕ)
    → IsCounted state permits
    → (j : ℕ)
    → or_default (
        get j (
          insert_entry ip
            (or_default (get ip state.connections_per_ip) + 1)
            state.connections_per_ip))
      ≡ held_by j (ip ∷ permits)
unfolding held_by
per_ip-acquire state permits ip v j =
    per_ip-insert ip j (or_default (get ip state.connections_per_ip) + 1) state.connections_per_ip
    ∙ (let at_ip = v.per_ip ip in let at_j = v.per_ip j in grind arith)

pub within_ip-acquire :
    (limit : ℕ) (permits : List ℕ) (ip : ℕ)
    → (limit ≡ 0) ⊎ ((j : ℕ) → held_by j permits ≤ limit)
    → is_reached limit (held_by ip permits) ≡ false
    → (limit ≡ 0) ⊎ ((j : ℕ) → held_by j (ip ∷ permits) ≤ limit)
unfolding held_by
within_ip-acquire limit permits ip (inl e) h = inl e
within_ip-acquire limit permits ip (inr w) h = elim (is_reached_room limit (held_by ip permits) h) [
  | inl e ↦ inl e
  | inr room ↦ inr (λ j.
      let old = w j in
      elim (Bool-cases (ip == j)) [
        | inl h ↦ let same = ap (λ k. held_by k permits) (eq_nat_sound ip j h) in ground arith
        | inr h ↦ ground arith
      ])
]

-- Where the state of the limiter counts the permits that are held, in all and for each address,
-- and they are within the limits that are set, try_acquire keeps that so: it adds the permit that
-- it gives, and a refusal leaves the permits as they are.
pub try_acquire_lem :
    (state : ConnectionLimiterState) (permits : List ℕ) (ip : ℕ)
    → IsCounted state permits
    → IsCounted (try_acquire state ip).0 (keep_permit (try_acquire state ip).1 permits)
unfolding try_acquire
try_acquire_lem state permits ip v =
    elim (Bool-cases (is_reached state.max_connections state.total_connections)) [
      | inl e ↦ rw (e, try_acquire) v
      | inr e ↦
          elim (Bool-cases (
            is_reached state.max_connections_per_ip
              (or_default (get ip state.connections_per_ip)))) [
                | inl e' ↦ rw (e, e', try_acquire) v
                | inr e' ↦
                    rw (e, e', try_acquire)
                      (record {
                        total = omega arith;
                        per_ip = per_ip-acquire state permits ip v;
                        within =
                            is_reached_room state.max_connections (length permits)
                              (subst (λ n. is_reached state.max_connections n ≡ false) v.total e);
                        within_ip =
                            within_ip-acquire state.max_connections_per_ip permits ip v.within_ip (
                              subst (λ n. is_reached state.max_connections_per_ip n ≡ false)
                                (v.per_ip ip) e');
                      })
              ]
    ]

pub held_by-length : (ip : ℕ) (permits : List ℕ) → held_by ip permits ≤ length permits
unfolding held_by
held_by-length ip [] = omega arith
held_by-length ip (p ∷ ps) = let rest = held_by-length ip ps in ground arith

pub drop_permit-length :
    (ip : ℕ) (permits : List ℕ)
    → 0 < held_by ip permits
    → length (drop_permit ip permits) ≡ length permits - 1
unfolding held_by drop_permit
drop_permit-length ip [] h = ground arith
drop_permit-length ip (p ∷ ps) h =
    let rest = drop_permit-length ip ps in let room = held_by-length ip ps in ground arith

pub weight_le :
    (ip j : ℕ) (permits : List ℕ) → 0 < held_by ip permits → weight (ip == j) ≤ held_by j permits
weight_le ip j permits h = elim (Bool-cases (ip == j)) [
  | inl e ↦ let same = ap (λ k. held_by k permits) (eq_nat_sound ip j e) in ground arith
  | inr e ↦ ground arith
]

pub drop_permit-held_by :
    (ip j : ℕ) (permits : List ℕ)
    → 0 < held_by ip permits
    → held_by j (drop_permit ip permits) ≡ held_by j permits - weight (ip == j)
unfolding held_by drop_permit
drop_permit-held_by ip j [] h = ground arith
drop_permit-held_by ip j (p ∷ ps) h =
    let rest = drop_permit-held_by ip j ps in
    let held : 0 < weight (p == ip) + held_by ip ps = h in
    elim (Bool-cases (p == ip)) [
      | inl h ↦
          let same = ap (λ k. weight (k == j)) (eq_nat_sound p ip h) in
          rw (h, if◌then◌else◌) (omega arith)
      | inr h ↦
          let old = rest (ground arith) in
          let room = weight_le ip j ps (ground arith) in rw (h, if◌then◌else◌) (omega arith)
    ]

pub none_stays :
    (ip j : ℕ) (m : List (ℕ × ℕ))
    → get ip m ≡ none
    → or_default (get j m) ≡ or_default (get j m) - weight (ip == j)
none_stays ip j m e = elim (Bool-cases (ip == j)) [
  | inl h ↦
      subst (λ k. or_default (get k m) ≡ or_default (get k m) - weight (ip == k))
        (eq_nat_sound ip j h) (rw (e, or_default) (omega arith))
  | inr h ↦ rw (h, weight) (omega arith)
]

pub lower_ip_lem :
    (ip j : ℕ) (m : List (ℕ × ℕ))
    → or_default (get j (lower_ip ip (get ip m) m)) ≡ or_default (get j m) - weight (ip == j)
lower_ip_lem ip j m = elim (Option-cases (get ip m)) [
  | inl e ↦ rw (e, lower_ip) (none_stays ip j m e)
  | inr (count, e) ↦
      rw (e, lower_ip)
        (elim (Bool-cases ((count - 1) == 0)) [
          | inl z ↦
              rw (z, if◌then◌else◌, get-remove_key ip j m)
                (elim (Bool-cases (ip == j)) [
                  | inl h ↦
                      let same = ap (λ k. or_default (get k m)) (eq_nat_sound ip j h) in
                      let at_ip = ap or_default e in ground arith
                  | inr h ↦ rw (h, weight, if◌then◌else◌) (omega arith)
                ])
          | inr z ↦
              rw (z, if◌then◌else◌, get-insert_entry ip j (count - 1) m)
                (elim (Bool-cases (ip == j)) [
                  | inl h ↦
                      let same = ap (λ k. or_default (get k m)) (eq_nat_sound ip j h) in
                      let at_ip = ap or_default e in ground arith
                  | inr h ↦ rw (h, weight, if◌then◌else◌) (omega arith)
                ])
        ])
]

pub within_drop :
    (limit n m : ℕ) → m ≡ n - 1 → (limit ≡ 0) ⊎ (n ≤ limit) → (limit ≡ 0) ⊎ (m ≤ limit)
within_drop limit n m e h = ground arith

-- Where the state of the limiter counts the permits that are held, and they are within its limits,
-- dropping a permit that is held keeps that so for the others.
pub release_lem :
    (state : ConnectionLimiterState) (permits : List ℕ) (ip : ℕ)
    → IsCounted state permits
    → 0 < held_by ip permits
    → IsCounted (release state ip) (drop_permit ip permits)
unfolding release
release_lem state permits ip v h =
    let size = drop_permit-length ip permits h in
    record {
      total = ap (λ n. n - 1) v.total ∙ sym size;
      per_ip = λ j.
          lower_ip_lem ip j state.connections_per_ip
          ∙ ap (λ n. n - weight (ip == j)) (v.per_ip j)
          ∙ sym (drop_permit-held_by ip j permits h);
      within =
          within_drop state.max_connections (length permits) (length (drop_permit ip permits)) size
            v.within;
      within_ip = elim v.within_ip [
        | inl e ↦ inl e
        | inr w ↦
            inr (λ j. let old = w j in let now = drop_permit-held_by ip j permits h in omega arith)
      ];
    }

-- ===== src/Broker/StickyKey/Bounds.antt =====
-- The hash of sticky_key.rs against the range that key_shared.rs splits.
use pulsar_lite.Prelude.{
  ℕ, ◌%◌, ◌<◌, ◌≤◌, Option, some, none, List, length, ◌≡◌, ◌∙◌, ap, arith, if◌then◌else◌,
}
use pulsar_lite.Prelude.Int.{pos, to_i32}
use pulsar_lite.Broker.KeyShared.{
  Assignments, Consumer, Readiness, rebuild_assignments, select_consumer_for_hash, is_ready,
  auto_split,
}
use pulsar_lite.Broker.KeyShared.Split.{select_consumer_for_hash-owner}
use pulsar_lite.Broker.StickyKey.{
  MessageMetadata, sticky_key_hash, sticky_key_hash_from_metadata, resolve_sticky_key, murmur3_32,
}

low_half : (n : ℕ) → n < 65536 → to_i32 n ≡ pos n
low_half n h = let low : n % 4294967296 ≡ n = omega arith in rw low (ground arith)

-- The hash of every key, as an i32, is a number below 65536.
pub sticky_key_hash_below : (key : List ℕ) → (h : ℕ) × (h < 65536) × (sticky_key_hash key ≡ pos h)
unfolding sticky_key_hash
sticky_key_hash_below key =
    let below : murmur3_32 key 0 % 65536 < 65536 = omega arith in
    (murmur3_32 key 0 % 65536, below, low_half (murmur3_32 key 0 % 65536) below)

-- With automatic split and 1 to 32767 consumers there is one owner for a sticky key: for every
-- metadata with the key, and whatever the permits and the writability of the consumers are,
-- select_consumer_for_hash gives the owner when it is ready, and no consumer otherwise.
pub same_key_owner :
    (decode : List ℕ → Option MessageMetadata) (a : Assignments) (key : List ℕ)
    → a.key_shared_policy.mode ≡ auto_split
    → 0 < length a.consumers_by_id
    → length a.consumers_by_id ≤ 32767
    → (owner : Consumer) × ((metadata : List ℕ) (now : Readiness)
        → resolve_sticky_key decode metadata ≡ key
        → select_consumer_for_hash now
            (rebuild_assignments a)
            (sticky_key_hash_from_metadata decode metadata)
          ≡ (if is_ready now owner then some owner else none))
same_key_owner decode a key auto some_consumers few =
    let (h, below, at) = sticky_key_hash_below key in
    let (owner, routed) = select_consumer_for_hash-owner a h auto below some_consumers few in
    (
      owner,
      λ metadata now same.
          ap (select_consumer_for_hash now (rebuild_assignments a)) (ap sticky_key_hash same ∙ at)
          ∙ routed now,
    )

-- ===== src/Tests/Redelivery.antt =====
-- Instances for the redelivery controller, and runs of it.
use pulsar_lite.Prelude.{◌+◌, true, some, ◌≡◌, not, ◌==◌, refl}
use pulsar_lite.Prelude.Int.{ℤ, pos, negsuc}
use pulsar_lite.Prelude.Maps.{get}
use pulsar_lite.Broker.Redelivery.{RedeliveryEntry, new_controller, is_hash_blocked}
use pulsar_lite.Broker.Redelivery.Balance.{queued, flying}
use pulsar_lite.Broker.Redelivery.Steps.{IsCounted}
use pulsar_lite.Broker.Redelivery.Delivery.{adds, step, step-IsCounted, new-IsCounted}

abbrev seventh : RedeliveryEntry
seventh = record {
  message_id = record { ledger = 1; entry = 7; partition = negsuc 0 };
  redelivery_count = 1;
  sticky_key_hash = some (pos 5);
}

step-IsCounted_example :
    IsCounted (step (new_controller true) (adds seventh))
    × ((h : ℤ)
        → is_hash_blocked (step (new_controller true) (adds seventh)) h
          ≡ not (
              (queued (step (new_controller true) (adds seventh)) h
                + flying (step (new_controller true) (adds seventh)) h)
              == 0))
unfolding get
step-IsCounted_example = step-IsCounted (new_controller true) (adds seventh) new-IsCounted refl

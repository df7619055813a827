-- ===== src/Message/Tests.antt =====
-- The texts of some alerts.
use subspace_chain_alerts.Base.{◌≡◌, refl, [], ◌∷◌, ◌++◌, some, codes, show_ℕ, length}
use subspace_chain_alerts.Alert.{slow_slot, ChainReorg, SlowSlot}
use subspace_chain_alerts.Message.{
  format_alert, format_reorg, format_hash_and_number, format_balance, format_slow_slot,
}
use subspace_chain_alerts.Message.Kinds.{read_kind, kind, read_kind-format_alert}
use subspace_chain_alerts.Message.Balances.{Written, format_balance-Written}
use subspace_chain_alerts.Message.BlockLists.{lines, block_lines, lines-format_reorg}
use subspace_chain_alerts.Message.Fixture.{rendering, config, rendering-Has96Bits, rendering-IsFlat}

abbrev slow : SlowSlot
slow = record { slot = 12; previous_slot = 11; slot_time = 7; threshold = 5 }

slow_text :
    format_slow_slot rendering config slow
    ≡ codes "**Slow slot**\nSlot: 12\nPrevious slot: 11\nSlot time: 7\nThreshold: 5"
unfolding format_slow_slot rendering show_ℕ
slow_text = refl

read_kind-format_alert_example :
    read_kind (format_slow_slot rendering config slow) ≡ some (kind (slow_slot slow))
read_kind-format_alert_example =
    read_kind-format_alert rendering config (slow_slot slow)
      (format_slow_slot rendering config slow) (unfold format_alert in refl)

format_balance-Written_example :
    Written 5000 config.token_decimals (format_balance rendering config 5000)
format_balance-Written_example = format_balance-Written rendering rendering-Has96Bits config 5000

abbrev alert : ChainReorg
alert = record {
  best_block = record { number = 3; hash = 30 };
  common_block = record { number = 1; hash = 10 };
  enacted = record { number = 2; hash = 29 } ∷ [];
  retracted = record { number = 2; hash = 21 } ∷ record { number = 3; hash = 22 } ∷ [];
}

lines-format_reorg_example :
    lines (format_reorg rendering config alert)
    ≡ codes "**Chain reorg**"
      ∷ (codes "Best block: " ++ format_hash_and_number rendering config alert.best_block)
      ∷ (codes "Common block: " ++ format_hash_and_number rendering config alert.common_block)
      ∷ codes "Retracted blocks:"
      ∷ (block_lines rendering rendering-IsFlat config alert.retracted
          ++ codes "Enacted blocks:"
            ∷ (block_lines rendering rendering-IsFlat config alert.enacted
                ++ (codes "Reorg Depth: " ++ show_ℕ (length alert.retracted)) ∷ []))
lines-format_reorg_example = lines-format_reorg rendering rendering-IsFlat config alert

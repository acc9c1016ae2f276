-- ===== src/Upload/Save.antt =====
-- `__send_data_pack_to_storage`: an event is put again up to four times.
pub mod Once
use thingsboard_gateway.Prelude.{ℕ, zero, suc, Bool, true, if◌then◌else◌}
use thingsboard_gateway.Storage.Contract.{EventStorage}

module _ {S E : Type 0} (ops : EventStorage S E) where
  -- `while not save_result and current_try < tries`, by the tries that are left.
  unfoldable pub put_again : ℕ → E → S × Bool → S × Bool
  put_again zero e result = result
  put_again (suc tries) e (s, saved) =
      let again = put_again tries e (ops.put e s) in if saved then (s, true) else again

  unfoldable pub save : E → S → S × Bool
  unfolding put_again
  save e s = put_again 4 e (ops.put e s)

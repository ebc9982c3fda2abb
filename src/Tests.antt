-- ===== src/Tests.antt =====
-- The environment of the tests, which apply the theorems at concrete inputs.
mod Ledger
mod Escrow
mod System
mod Payment
mod Idempotency
mod Retry
use airbar_finance.Prelude.{◌+◌, ◌*◌, ◌/◌, false, some, [], ◌∷◌}
use airbar_finance.Prelude.Int.{pos, pos_part}
use airbar_finance.Prelude.Text.{text}
use airbar_finance.Store.World.{Env}

-- No call fails, and the fee is five percent.
abbrev pub sound_env : Env
sound_env = record {
  fails = λ t. false;
  evicted = λ t. false;
  uuid = λ t. (65 + t) ∷ [];
  clock = λ t. t;
  float_fee = λ a. pos (pos_part a * 5 / 100);
  public_base_url = [];
  psp_request = λ input. some (record { track_id = text "77"; redirect_url = text "go" });
  psp_verify = λ track_id. some (pos 500);
  sha256_hex = λ s. s;
  trim_space = λ s. s;
  to_upper = λ s. s;
  json_marshal = λ p. [];
}

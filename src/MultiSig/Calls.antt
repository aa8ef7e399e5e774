-- ===== src/MultiSig/Calls.antt =====
-- Histories of src/guard/multisig/MultiSigHandler.ts: what calls the handler is a message, a caller
-- or job, or a timer, in any order, and the guard may read anything at each.
use ts_gaurd_service.Base.{ℕ, zero, suc, Option, none, some, List, [], ◌∷◌, String, Action, ok}
use ts_gaurd_service.MultiSig.{
  Sigma, MultiSig, Cosigner, send_register, handle_public_keys_change, get_elem?,
}
use ts_gaurd_service.MultiSig.Queue.{sign, cleanup}
use ts_gaurd_service.MultiSig.Signing.{delayed_generate_sign}
use ts_gaurd_service.MultiSig.Messages.{handle_message}

module _ (σ : Sigma) where
  pub data Call : Type 0 where
    received : Cosigner σ → String → String → Call
    asked : Cosigner σ → ℕ → σ.ReducedTx → ℕ → List σ.Box → Option (List σ.Box) → Call
    -- The timer that runs for the longest but so many.
    timer : Cosigner σ → ℕ → Call
    clean : Cosigner σ → Call
    register_again : Cosigner σ → Call
    keys_changed : Cosigner σ → List String → Call

abbrev pub remove_at : ℕ → List String → List String
remove_at i [] = []
remove_at zero (x ∷ xs) = xs
remove_at (suc i) (x ∷ xs) = x ∷ remove_at i xs

module _ {σ : Sigma} where
  abbrev pub fire : Cosigner σ → ℕ → Option String → Action (MultiSig σ) (Unit {0})
  fire guard k none w = (ok tt, w)
  fire guard k (some id) w =
      delayed_generate_sign guard id (record w { delayed = remove_at k w.delayed })

  abbrev pub call : Call σ → Action (MultiSig σ) (Unit {0})
  call (received guard message_str sender) w = handle_message guard message_str sender w
  call (asked guard promise tx required boxes data_boxes) w =
      sign guard promise tx required boxes data_boxes w
  call (timer guard k) w = fire guard k (get_elem? w.delayed k) w
  call (clean guard) w = cleanup guard w
  call (register_again guard) w = send_register guard w
  call (keys_changed guard public_keys) w = handle_public_keys_change guard public_keys w

  abbrev pub after_calls : List (Call σ) → MultiSig σ → MultiSig σ
  after_calls [] w = w
  after_calls (c ∷ cs) w = after_calls cs (call c w).1

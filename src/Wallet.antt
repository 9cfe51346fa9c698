-- ===== src/Wallet.antt =====
-- crypto/token/token_manager.py, the wallet of the tokens that this peer obtained ("token_wallet.json").
pub mod Owned
use onyx_p2p_auction_system.Base.{
  ℕ, String, Bool, true, false, Option, none, some, List, [], ◌∷◌, ◌++◌, str_eq, ◌||◌,
  if◌then◌else◌,
}
use onyx_p2p_auction_system.Event.{Stamp}

-- Only `_save_to_wallet` writes entries, and with all their keys.
pub record WalletEntry : Type 0 where
  pub token_id : String
  pub blinded_token_b64 : String
  -- written as `str(r)`, read back by `int(...)`
  pub blinding_factor_r : ℕ
  pub token_signature_b64 : String
  pub timestamp : Option Stamp

-- the file: missing, with a text that is no JSON, or with a list
pub data WalletFile : Type 0 where
  absent unreadable : WalletFile
  stored : List WalletEntry → WalletFile

pub load_wallet : WalletFile → List WalletEntry
load_wallet absent = []
load_wallet unreadable = []
load_wallet (stored wallet) = wallet

-- What could not be read is written over.
pub save_to_wallet : String → String → ℕ → String → Option Stamp → WalletFile → WalletFile
unfolding load_wallet
save_to_wallet token_id blinded_token r token_sig timestamp file = stored (
    load_wallet file
    ++ record {
      token_id = token_id;
      blinded_token_b64 = blinded_token;
      blinding_factor_r = r;
      token_signature_b64 = token_sig;
      timestamp = timestamp;
    }
      ∷ [])

owned_in : String → List WalletEntry → Bool
owned_in token_id [] = false
owned_in token_id (entry ∷ rest) =
    if str_eq entry.token_id token_id then true else owned_in token_id rest

-- None and the empty text are nobody's.
pub is_token_owner : Option String → WalletFile → Bool
unfolding owned_in load_wallet
is_token_owner none file = false
is_token_owner (some token_id) file =
    if str_eq token_id "" then false else owned_in token_id (load_wallet file)

factor_in : String → List WalletEntry → Option ℕ
factor_in token_id [] = none
factor_in token_id (entry ∷ rest) =
    if str_eq entry.token_id token_id then some entry.blinding_factor_r else factor_in token_id rest

unfoldable pub get_blinding_factor_r : Option String → WalletFile → Option ℕ
unfolding factor_in load_wallet
get_blinding_factor_r none file = none
get_blinding_factor_r (some token_id) file = factor_in token_id (load_wallet file)

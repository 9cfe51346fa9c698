-- ===== src/Peer/Process/Rotates.antt =====
-- How a peer takes over a new group key.
use onyx_p2p_auction_system.Base.{String, none, some, List, ◌≡◌, refl}
use onyx_p2p_auction_system.Base.Exec.{ok}
use onyx_p2p_auction_system.Event.{blank, new_key}
use onyx_p2p_auction_system.Peer.{Client, Library, Inputs, Message, message}
use onyx_p2p_auction_system.Peer.Process.{
  process_message, route, rotate_key, set_group_key, find_my_new_key,
}

-- the message that tells peers of a new key
abbrev pub rotation : List String → Message
rotation list = record (message (record blank { kind = some new_key })) {
  encrypted_keys = some list;
}

module _ (library : Library) (inputs : Inputs) (list : List String) (client : Client) where
  pub process_message-found :
      (key : String)
      → find_my_new_key (library.rsa_decrypt client.private_key) list ≡ some key
      → process_message library inputs (some (rotation list)) client
        ≡ (ok tt, record client { group_key = key })
  unfolding process_message route rotate_key set_group_key
  process_message-found key e = rw e refl

  pub process_message-not_found :
      find_my_new_key (library.rsa_decrypt client.private_key) list ≡ none
      → process_message library inputs (some (rotation list)) client ≡ (ok tt, client)
  unfolding process_message route rotate_key set_group_key
  process_message-not_found e = rw e refl

-- a JSON object without a type
pub process_message-ignored :
    (library : Library) (inputs : Inputs) (m : Message) (client : Client)
    → m.kind ≡ none
    → (process_message library inputs (some m) client).1 ≡ client
unfolding process_message route
process_message-ignored library inputs m client e = rw e refl

-- ===== src/Lib.antt =====
-- The Onyx peer-to-peer auction system: peers gossip auctions and bids, each spends an anonymous
-- token that the CA signed blindly, and keeps a hash-chained ledger and dictionaries of the
-- auctions.
--
-- The modelled code is in P2P_auction_system/. A peer's state is `Peer.Client`
-- (client/client_state.py); messages reach `Peer.Process.process_message`
-- (client/message/process_message.py), commands `Peer.Commands.peer_input`
-- (client/message/peer_input.py). Both work on the ledger, on the auction dictionaries and on the
-- token wallet.
--
-- - Base, Number, Event: helpers, Python's numbers as bids use them, with what `float` makes
--   of them, and the JSON objects.
-- - Ledger (client/ledger/ledger_logic.py): `Block`, `Ledger`, and its methods under their names.
-- - Auctions (client/message/auction/auction_handler.py): the dictionaries of the known auctions.
-- - Wallet, Token (crypto/token/token_manager.py, crypto/token/crypto_token.py, and `blind_sign`
--   of ca/ca_api/ca_api.py): the token wallet and RSA blind signatures; `Token.Factor` draws the
--   factors.
-- - Replay (client/ledger/translation/ledger_to_dict.py): the auctions rebuilt from a chain.
-- - Peer.Tokens: `get_token`, `verify_token`, and the AES-GCM envelope (crypto/crypt_decrypt/).
-- - Peer.Sync (client/ledger/ledger_handler.py): exchanging ledgers, and the start of a peer.
-- - Peer.Reveal (client/message/auction/auction_end_handler.py, client/message/winner_reveal/):
--   the exchange of identities behind an auction.
-- - Peer.Process: checking and routing messages, with client/ca_handler/ca_message.py and
--   crypto/keys/group_keys.py.
-- - Peer.Status (client/message/status_handler.py): what "status" prints.
-- - Peer.Commands: what a user types, with client/message/bid/bid_handler.py and `cmd_auction`,
--   and a round of `check_auctions` (network/peer.py).
--
-- - Ca (ca/ca_db.py, ca/ca_api/, ca/ca_service.py): the tables (`Ca.Queries`), the endpoints
--   (`Ca.Api`), the start (`Ca.Startup`), and crypto/crypt_decrypt/hybrid.py (`Ca.Hybrid`).
-- - Certificates (crypto/certificates/certificates.py), Keys (crypto/keys/keys_handler.py and
--   keys_crypto.py): requests, certificates, and the files of a key pair.
-- - Connection (client/ca_handler/ca_connection.py): registration and the request for an identity.
-- - Transport (network/tcp.py): frames, the loop that reads lines from chunks, and what a line
--   does.
-- - Network (network/tcp.py): sending to sockets of which some fail, reading one until it ends,
--   and the loop that connects to the relay again and again.
-- - Relay (relay_server.py): the table of connections, broadcasts, and what a hang-up sets off at
--   the CA and at the peers. `Relay.Monitored` translates the steps of relay_monitor_server.py,
--   which repeats that code with calls of the monitor; `Relay.Threads` runs one thread for each
--   socket in the order of a schedule; `Relay.Startup` is the loop that accepts the sockets.
-- - Config (config/config.py): the host and the port of a configuration.
-- - Monitor (security_monitor.py, relay_monitor.py): metrics and alerts.
-- - Host (client/host_node.py, `user_auction_input` of network/peer.py): the start and a session.
--
-- A registration runs `Connection` on `Ca.Api.register`. What a peer hands to `send` leaves it in
-- a frame of `Transport`; `Relay.broadcast` writes it to the others, whose
-- `Network.handle_connection` calls `Transport.receive` and that `Peer.Process.process_message`.
-- At a hang-up `Relay.peer_left` calls `Ca.Api.leave_network`.
--
-- Code that mutates objects and may raise is a function from a state to a result and a state, so
-- what was written before a raise stays written (Base.Exec); what a query did and did not commit
-- is gone (`Ca.Api.transaction`). What is outside the repository is a field of `Peer.Library`,
-- `Ca.Authority`, `Ca.Hybrid.Primitives`, `Certificates.X509`, `Keys.Pem` or `Transport.Wire`
-- (SHA-256 of a block's JSON text, base64, RSA-OAEP, AES-GCM, RSA-PSS, certificates, UTF-8, JSON,
-- the CA's answers) or of `Peer.Inputs` and `Ca.Draws` (clocks, random numbers, new keys). A JSON
-- key that is absent or null is `none`; `null_min_bid` tells the two apart for "min_bid". `_modinv`
-- recurses on accessibility and `bit_length` on as much fuel as the number itself, which halving
-- never uses up; the loop that reads lines has the buffer's length as fuel, and every line takes a
-- byte. The loop that draws blinding factors returns on any fuel above the place of an invertible
-- draw.
--
-- What `connect`, `recv` and `sendall` give on a peer's sockets, timeouts and failures included,
-- comes as a list of events (`Network.Recv`, `Network.Attempt`).
--
-- Not modelled: threads of a peer and how they interleave inside a handler (network/), but for
-- what is sent while a connection is open; below the queries of the CA, HTTP and SQLite; printing,
-- logging, the command lines and `main` functions, and the attack scripts. The relay's `sendall`
-- is taken not to block, and its failures are ignored as the relay ignores them. Printing and
-- security logs are left out of the handlers that are modelled.
pub mod Base
pub mod Number
pub mod Event
pub mod Ledger
pub mod Auctions
pub mod Ca
pub mod Certificates
pub mod Keys
pub mod Connection
pub mod Wallet
pub mod Replay
pub mod Token
pub mod Peer
pub mod Transport
pub mod Network
pub mod Relay
pub mod Monitor
pub mod Host
pub mod Config

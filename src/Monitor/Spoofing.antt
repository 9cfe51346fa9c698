-- ===== src/Monitor/Spoofing.antt =====
-- What the relay's monitor makes of two sockets with one uuid.
use onyx_p2p_auction_system.Base.{
  String, true, false, [], ◌∷◌, ◌++◌, ◌≡◌, ◌≢◌, refl, arith, str_eq_iff, List,
}
use onyx_p2p_auction_system.Monitor.{
  RelayMonitor, uuid_collision, register_uuid, remove_uuid, is_active, inactive,
}

is_active-inactive :
    (uuid : String) (active : List String) → is_active uuid (inactive uuid active) ≡ false
unfolding is_active inactive
is_active-inactive uuid [] = refl
is_active-inactive uuid (first ∷ rest) = ground (arith, is_active-inactive uuid rest)

-- A collision is reported while a uuid is active; but when the second socket hangs up, the uuid
-- counts as inactive although the first one is still there, and a third socket with it is entered
-- without a report.
pub register_uuid-forgets :
    (uuid ip another : String) (monitor : RelayMonitor)
    → is_active uuid monitor.active_uuids ≡ true
    → uuid ≢ "NA"
    → let collided = register_uuid uuid ip monitor in
      let left = remove_uuid uuid collided in
      (collided.log ≡ monitor.log ++ uuid_collision uuid ip ∷ [])
      × (is_active uuid left.active_uuids ≡ false)
      × ((register_uuid uuid another left).log ≡ collided.log)
      × (is_active uuid (register_uuid uuid another left).active_uuids ≡ true)
unfolding register_uuid remove_uuid is_active
register_uuid-forgets uuid ip another monitor active named = ground (
  arith,
  is_active-inactive uuid monitor.active_uuids,
  str_eq_iff uuid "NA",
  str_eq_iff uuid uuid,
  named,
)

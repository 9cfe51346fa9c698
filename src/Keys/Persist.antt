-- ===== src/Keys/Persist.antt =====
-- A peer's key pair from one start to the next.
use onyx_p2p_auction_system.Base.{String, Option, none, some, ◌≡◌, refl}
use onyx_p2p_auction_system.Keys.{
  KeyFiles, Pem, Generated, load_private_and_public_key, write_pair, has_both,
  prepare_key_pair_generation,
}

module _ (pem : Pem) (made again : Generated) where
  -- the files that a start leaves: the old ones where both were there, and new ones otherwise
  abbrev pub files_after : Option String → Option String → KeyFiles
  files_after (some private) (some public) = record {
    private_file = some private;
    public_file = some public;
  }
  files_after _ _ = record {
    private_file = some made.private_pem;
    public_file = some made.public_pem;
  }

  -- A start keeps the two key files where both are there and otherwise writes a new pair over what
  -- is there, also over a private key whose public key is missing; it returns what the files then
  -- hold. So every later start has the same keys, and leaves the files alone.
  pub prepare_key_pair_generation-lasts :
      (files : KeyFiles)
      → let after = files_after files.private_file files.public_file in
        (prepare_key_pair_generation pem made files
          ≡ (load_private_and_public_key pem after, after))
        × (prepare_key_pair_generation pem again after
            ≡ (load_private_and_public_key pem after, after))
  unfolding prepare_key_pair_generation has_both write_pair
  prepare_key_pair_generation-lasts files = by_files files.private_file files.public_file
    where
      by_files :
          (private public : Option String)
          → let after = files_after private public in
            (prepare_key_pair_generation pem made
                (record { private_file = private; public_file = public })
              ≡ (load_private_and_public_key pem after, after))
            × (prepare_key_pair_generation pem again after
                ≡ (load_private_and_public_key pem after, after))
      by_files (some private) (some public) = (refl, refl)
      by_files (some private) none = (refl, refl)
      by_files none public = (refl, refl)

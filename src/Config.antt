-- ===== src/Config.antt =====
-- config/config.py: the host and the port of a configuration. A path is the list of its parts; what a
-- file holds comes from outside.
use onyx_p2p_auction_system.Base.{
  ℕ, String, Option, none, some, List, [], ◌∷◌, ◌++◌, ◌≡◌, last?, last?-snoc, ap,
}
use onyx_p2p_auction_system.Base.Exec.{
  Result, ok, raised, bind_result, or_raise, os_error, value_error,
}

-- The value at "port": missing, or as `int` reads it, `none` where that raises.
pub data Port : Type 0 where
  missing : Port
  given : Option ℕ → Port

pub record Content : Type 0 where
  pub host : Option String
  pub port : Port

pub record Files : Type 0 where
  -- the name with ".json" behind it
  pub json_name : String → String
  -- the object in a file, `none` where opening or parsing raises
  pub load : List String → Option Content

module _ (files : Files) where
  open files use {json_name, load}

  -- the last part of no path is the empty text
  last_part : List String → String
  last_part path = elim (last? path) [ none ↦ "" | some part ↦ part ]

  unfoldable pub make_json_path : List String → List String
  unfolding last_part
  make_json_path path = path ++ json_name (last_part path) ∷ []

  port_of : Port → Result (Option ℕ)
  port_of missing = ok none
  port_of (given none) = raised value_error
  port_of (given (some port)) = ok (some port)

  unfoldable pub parse_config_file : List String → Result (Option String × Option ℕ)
  unfolding port_of
  parse_config_file config_file =
      bind_result (or_raise (load config_file) os_error)
        λ content. bind_result (port_of content.port) λ port. ok (content.host, port)

  unfoldable pub parse_config : List String → Result (Option String × Option ℕ)
  unfolding make_json_path parse_config_file
  parse_config config_path = parse_config_file (make_json_path config_path)

  -- A configuration is the file in its directory that has the directory's name.
  pub parse_config-file :
      (directory : List String) (name : String)
      → parse_config (directory ++ name ∷ [])
        ≡ parse_config_file ((directory ++ name ∷ []) ++ json_name name ∷ [])
  unfolding parse_config make_json_path last_part
  parse_config-file directory name =
      ap
        (λ (found : Option String). parse_config_file (
          (directory ++ name ∷ []) ++ json_name (elim found [ none ↦ "" | some part ↦ part ]) ∷ []))
        (last?-snoc directory name)

-- ===== src/Cfg/Tests.antt =====
-- Runs of cfg.c, and the theorems at inputs that meet their hypotheses.
use bboot.Base.{◌<◌, List, [], ◌∷◌, ◌++◌, ◌≡◌, ◌≢◌, refl, none, some, Bytes, codes, length, arith}
use mathlib.Core.Option
use bboot.Cfg.{
  has, Answer, options_size, string, strlen, cfg_init, cfg_is_option, drop_lead, drop_trail,
  load_options, strspn, overwrite, default_opts,
}
use bboot.Cfg.Trim.{trim_start, trim_behind_first}
use bboot.Cfg.Init.{fresh, blanks, option_string, cfg_init-trim, cfg_init-fault}
use bboot.Cfg.Lookup.{
  Setting, render, behind, letters_of, in_letters, is_settings, cfg_is_option-render, is_upper,
  is_letter, all,
}

abbrev missing : Answer
missing = record { result = none; stored = [] }

abbrev padded : Answer
padded = record { result = some 12; stored = codes " Of V0 Ab \n" ++ (0 ∷ []) }

abbrev spaces : Answer
spaces = record { result = some 3; stored = codes "  " ++ (0 ∷ []) }

-- Those of the default.
abbrev settings : List Setting
settings =
    record { name = b'O'; letters = codes "s" }
    ∷ record { name = b'V'; letters = codes "5" }
    ∷ record { name = b'A'; letters = codes "pb" }
    ∷ []

default_settings : render settings [] ≡ default_opts ++ (0 ∷ [])
unfolding render behind
default_settings = refl

init_missing : Option.map string (cfg_init missing fresh) ≡ some (codes "Os V5 Apb")
unfolding cfg_init load_options overwrite drop_lead drop_trail strspn strlen string fresh has
init_missing = refl

init_padded : Option.map string (cfg_init padded fresh) ≡ some (codes "Of V0 Ab")
unfolding cfg_init load_options overwrite drop_lead drop_trail strspn strlen string fresh has
init_padded = refl

init_spaces : cfg_init spaces fresh ≡ none
unfolding cfg_init load_options overwrite drop_lead drop_trail strspn strlen string fresh has
init_spaces = refl

cfg_init-trim_example :
    (o : Bytes) × (cfg_init padded fresh ≡ some o)
    × (string o ≡ trim_behind_first (trim_start blanks (option_string padded)))
    × (length o ≡ options_size)
    × (strlen o < options_size)
unfolding string trim_start blanks has
cfg_init-trim_example = cfg_init-trim padded (omega arith) not_blank
  where
    not_blank : trim_start blanks (option_string padded) ≢ []
    not_blank = λ e. cc e

cfg_init-fault_example : cfg_init spaces fresh ≡ none
unfolding string trim_start blanks has
cfg_init-fault_example = cfg_init-fault spaces (omega arith) refl

cfg_is_option-render_example :
    cfg_is_option (render settings []) b'A' b'b' ≡ in_letters (letters_of settings b'A') b'b'
unfolding is_settings is_upper is_letter all
cfg_is_option-render_example = cfg_is_option-render settings [] b'A' b'b' refl refl refl

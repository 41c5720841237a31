-- ===== src/Config/Flags/Precedence.antt =====
-- Which value of a setting wins.
use hawk_apiserver.Prelude.{
  ℕ, ◌≡◌, ◌≢◌, refl, ◌⊎◌, inl, inr, false, [], ◌==◌, nat_eq, text_eq, arith, text_beq_iff,
  nat_beq_iff, Bool-cases,
}
use hawk_apiserver.Text.{Text}
use hawk_apiserver.Server.Env.{Config}
use hawk_apiserver.Config.Flags.{
  Flags, default_config, override_text, override_nat, apply_flags, configure,
}

-- The value is the flag's, unless the flag has its default: then it is the file's.
abbrev pub Prefers : {A : Type 0} → A → A → A → A → Type 0
Prefers flag default file value =
    ((flag ≢ default) × (value ≡ flag)) ⊎ ((flag ≡ default) × (value ≡ file))

override_text_lem :
    (flag default file : Text) → Prefers flag default file (override_text flag default file)
unfolding override_text
override_text_lem flag default file = elim (Bool-cases (flag == default)) [
  | inl e ↦ inr ((text_beq_iff flag default).0 e, rw e)
  | inr e ↦ inl (ground (arith, text_beq_iff flag default), rw e)
]

override_nat_lem :
    (flag default file : ℕ) → Prefers flag default file (override_nat flag default file)
unfolding override_nat
override_nat_lem flag default file = elim (Bool-cases (flag == default)) [
  | inl e ↦ inr ((nat_beq_iff flag default).0 e, rw e)
  | inr e ↦ inl (ground arith, rw e)
]

-- With a configuration file each of the five settings is the flag's, if the flag differs from its
-- default, and else the file's; the routes are the file's.
pub configure_precedence :
    (file : Text → Config → Config) (f : Flags) (c : Config)
    → f.config ≢ []
    → file f.config default_config ≡ c
    → Prefers f.listen default_config.listen c.listen (configure file f).listen
      × Prefers f.port default_config.port c.port (configure file f).port
      × Prefers f.key default_config.key c.key (configure file f).key
      × Prefers f.cert default_config.cert c.cert (configure file f).cert
      × Prefers f.log_level default_config.log_level c.log_level (configure file f).log_level
      × ((configure file f).route ≡ c.route)
unfolding configure apply_flags
configure_precedence file f c given e =
    rw (no_config, e)
      (
        override_text_lem _ _ _,
        override_nat_lem _ _ _,
        override_text_lem _ _ _,
        override_text_lem _ _ _,
        override_text_lem _ _ _,
        refl,
      )
  where
    no_config : (f.config == []) ≡ false
    no_config = ground (arith, text_beq_iff f.config [])

-- ===== src/Startup/Ready.antt =====
-- When main comes to accept connections, and what it logs when the configuration file is broken.
use hawk_apiserver.Prelude.{
  ℕ, suc, ◌+◌, ◌<◌, ◌≡◌, ◌≢◌, ◌↔◌, refl, sym, ◌⊎◌, inl, inr, false, not, if◌then◌else◌, [], ◌∷◌,
  ◌++◌, Option, none, some, ◌==◌, text_eq, text_beq_iff, Bool-cases, length, replicate, arith,
}
use hawk_apiserver.Text.{Text, codes, count_byte}
use hawk_apiserver.Text.Laws.{Lacks, IsTail}
use hawk_apiserver.Outcome.{Outcome, done, panic}
use hawk_apiserver.Server.Env.{Config}
use hawk_apiserver.Config.File.{
  Process, runs, exits, crashes, contents, unreadable, FileRead, Unmarshalled, filled, syntax_error,
  other_error, unmarshalled, read_config, parse_config_file, logged,
}
use hawk_apiserver.Config.Flags.{Flags, default_config, apply_flags}
use hawk_apiserver.Config.Offset.{error_lines}
use hawk_apiserver.Config.Offset.Line.{IsLines, error_lines_lem}
use hawk_apiserver.Startup.{
  Host, Server, or_info, listening, with_key_pair, started, listen_and_serve_with_redirect, address,
  start, main,
}

module _ (h : Host) where
  open h use {read_file, unmarshal, decimal, Level, parse_level, load_key_pair, listen}

  -- What the file leaves: the defaults without a file, and what its text makes of them.
  abbrev pub Given : Flags → Config → Type 0
  Given f c =
      ((f.config ≡ []) × (c ≡ default_config))
      ⊎ ((f.config ≢ [])
          × ((raw : Text) × (read_file f.config ≡ contents raw)
              × (unmarshal raw default_config ≡ filled c)))

  abbrev pub server : Config → Server Level
  server c = record {
    config = c;
    level = or_info h (parse_level c.log_level);
    listener = record {
      addr = address h c;
      cert = c.cert;
      key = c.key;
      next_protos = codes "http1/1" ∷ [];
    };
  }

  -- The key pair loads, the address is free, and the server is the one of the configuration.
  abbrev pub Opens : Config → Server Level → Type 0
  Opens c s = (load_key_pair c.cert c.key ≡ none) × (listen (address h c) ≡ none) × (s ≡ server c)

  runs-inj {ℓ} : {A : Type ℓ} {a b : A} → runs a ≡ runs b → a ≡ b
  runs-inj e = cc

  listening-runs :
      (c : Config) (s : Server Level) (o : Option Text)
      → (started h c (listening h (address h c) c.cert c.key o) ≡ runs s)
        ↔ ((o ≡ none) × (s ≡ server c))
  listening-runs c s (some e) = (λ p. cc, λ p. let q = p.0 in cc)
  listening-runs c s none = (λ p. (refl, sym (runs-inj p)), λ p. rw p.1)

  with_key_pair-runs :
      (c : Config) (s : Server Level) (o : Option Text)
      → (started h c (with_key_pair h (address h c) c.cert c.key o) ≡ runs s)
        ↔ ((o ≡ none) × (listen (address h c) ≡ none) × (s ≡ server c))
  with_key_pair-runs c s (some e) = (λ p. cc, λ p. let q = p.0 in cc)
  with_key_pair-runs c s none =
      let (to, from) = listening-runs c s (listen (address h c)) in
      (λ p. let q = to p in (refl, q.0, q.1), λ p. from (p.1, p.2))

  start-runs :
      (f : Flags) (s : Server Level) (p : Process Config)
      → (start h f p ≡ runs s) ↔ ((file : Config) × (p ≡ runs file) × Opens (apply_flags f file) s)
  unfolding start listen_and_serve_with_redirect
  start-runs f s (exits ls) = (λ e. cc, λ e. let q = e.1 in cc)
  start-runs f s crashes = (λ e. cc, λ e. let q = e.1 in cc)
  start-runs f s (runs file) =
      let c = apply_flags f file in
      let (to, from) = with_key_pair-runs c s (load_key_pair c.cert c.key) in
      (λ e. (file, refl, to e), λ (file', q, o). from (rw (runs-inj q) o))

  logged-ne-runs :
      (msg : Text) (o : Outcome (ℕ × Text × Text)) (c : Config) → logged decimal msg o ≢ runs c
  logged-ne-runs msg panic c e = cc
  logged-ne-runs msg (done x) c e = cc

  unmarshalled-runs :
      (raw : Text) (c : Config) (u : Unmarshalled)
      → (unmarshalled decimal raw u ≡ runs c) ↔ (u ≡ filled c)
  unfolding unmarshalled
  unmarshalled-runs raw c (filled c') = (λ e. rw (runs-inj e), λ e. cc)
  unmarshalled-runs raw c (syntax_error msg n) =
      (λ e. absurd (logged-ne-runs msg (error_lines raw n) c e), λ e. cc)
  unmarshalled-runs raw c (other_error msg) = (λ e. cc, λ e. cc)

  contents-inj : {a b : Text} → contents a ≡ contents b → a ≡ b
  contents-inj e = cc

  read_config-runs :
      (target c : Config) (r : FileRead)
      → (read_config decimal unmarshal target r ≡ runs c)
        ↔ ((raw : Text) × (r ≡ contents raw) × (unmarshal raw target ≡ filled c))
  unfolding read_config
  read_config-runs target c (unreadable msg) = (λ e. cc, λ x. let q = x.1 in cc)
  read_config-runs target c (contents raw) =
      let (to, from) = unmarshalled-runs raw c (unmarshal raw target) in
      (λ e. (raw, refl, to e), λ (raw', q, p). from (rw (contents-inj q) p))

  Given-runs :
      (f : Flags) (c : Config)
      → ((if not (f.config == [])
            then parse_config_file decimal read_file unmarshal f.config default_config
            else runs default_config)
          ≡ runs c)
        ↔ Given f c
  unfolding parse_config_file
  Given-runs f c =
      let (to, from) = read_config-runs default_config c (read_file f.config) in
      elim (Bool-cases (f.config == [])) [
        | inl e ↦
            let empty = (text_beq_iff f.config []).0 e in
            rw e (
              λ p. inl (empty, sym (runs-inj p)),
              λ x. elim x [ inl (_, q) ↦ rw q refl | inr (given, _) ↦ absurd (given empty) ],
            )
        | inr e ↦ rw e (
          λ p. inr (given_of e, to p),
          λ x. elim x [ inl (empty, _) ↦ absurd (given_of e empty) | inr (_, q) ↦ from q ],
        )
      ]
    where
      given_of : (f.config == []) ≡ false → f.config ≢ []
      given_of e p = ground (arith, text_beq_iff f.config [])

  -- main comes to accept connections exactly when the configuration file, if there is one, is read
  -- and unmarshalled, and with the flags applied to what it leaves, the key pair loads and the
  -- address `listen:port` is free; the server is then the one of that configuration, with the info
  -- level if the level does not parse.
  pub main-eq-runs :
      (f : Flags) (s : Server Level)
      → (main h f ≡ runs s) ↔ ((file : Config) × Given f file × Opens (apply_flags f file) s)
  unfolding main
  main-eq-runs f s =
      let (to, from) = start-runs f s _ in
      (
        λ e. let (file, p, o) = to e in (file, (Given-runs f file).0 p, o),
        λ (file, g, o). from (file, (Given-runs f file).1 g, o),
      )

  -- If the configuration file is cut into whole lines, a line without a line feed, and a rest that
  -- is empty or begins with one, and it does not parse at byte k of that line, then main logs the
  -- number of lines before and the error, the line, and a caret under the byte, and exits.
  pub main-syntax_error :
      (f : Flags) (pre l rest msg : Text) (k : ℕ)
      → IsLines pre
      → Lacks 10 l
      → IsTail 10 rest
      → f.config ≢ []
      → read_file f.config ≡ contents (pre ++ (l ++ rest))
      → unmarshal (pre ++ (l ++ rest)) default_config ≡ syntax_error msg (length pre + suc k)
      → k < length l
      → main h f
        ≡ exits (
            (codes "Error in line " ++ (decimal (count_byte pre 10) ++ (codes ": " ++ msg)))
            ∷ l
            ∷ (replicate k b' ' ++ b'^' ∷ [])
            ∷ [])
  unfolding main parse_config_file
  main-syntax_error f pre l rest msg k lines one tail g r u small =
      rw (no_config, r, u, error_lines_lem pre l rest lines one tail k small)
    where
      no_config : (f.config == []) ≡ false
      no_config = ground (arith, text_beq_iff f.config [])

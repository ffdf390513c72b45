-- ===== src/Config/Complete.antt =====
-- config/config.go: which environments `Load` accepts, and what its errors say.
use pi_bully.Prelude.{
  ℕ, ◌≡◌, ◌≢◌, refl, ◌⊎◌, inl, inr, String, Option, none, some, List, [], ◌∷◌, ℤ, All, arith, Bool,
  ◌||◌, Bool-cases, ◌==◌, true, false, subst,
}
use text.Mathlib.Text.{◌==◌ as str_eq}
use text.Mathlib.TextEquality.{eq_iff}
use pi_bully.Text.{Text}
use pi_bully.Text.Decimal.{parse_uint, atoi}
use pi_bully.Config.{
  Env, Error, required, invalid, not_uint, or_not_uint, Result, ok, err, require, load,
  load_node_config, load_server_config, load_database_config, load_storage_config,
  load_memberlist_config, Config, ◌>>=◌, or_invalid, positive,
}

-- The variables without a default.
abbrev pub required_keys : List String
required_keys =
    "NODE_ADDRESS" ∷ "GRPC_PORT" ∷ "POSTGRES_HOST" ∷ "POSTGRES_PORT" ∷ "POSTGRES_USER"
    ∷ "POSTGRES_PASSWORD" ∷ "POSTGRES_DB" ∷ "POSTGRES_SSL_MODE" ∷ "STORAGE_ENDPOINT"
    ∷ "STORAGE_BUCKET" ∷ "STORAGE_ACCESS_KEY" ∷ "STORAGE_SECRET_KEY" ∷ "STORAGE_REGION"
    ∷ "MEMBERLIST_BIND_ADDR" ∷ "MEMBERLIST_SEEDS" ∷ []

abbrev pub has_key : String → List String → Bool
has_key key [] = false
has_key key (k ∷ keys) = str_eq k key || has_key key keys

All-has_key :
    (P : String → Type 0) (key : String) (keys : List String)
    → All P keys
    → has_key key keys ≡ true
    → P key
All-has_key P key [] h e = cc
All-has_key P key (k ∷ keys) (h, hs) e = elim (Bool-cases (str_eq k key)) [
  | inl same ↦ subst P ((eq_iff k key).0 same) h
  | inr other ↦ All-has_key P key keys hs (ground arith)
]

-- They are set, the node's identifier is a positive uint64, and the port is an int.
abbrev pub IsComplete : Env → Type 0
IsComplete env =
    All (λ key. env key ≢ []) required_keys
    × ((id : ℕ) × (parse_uint (env "NODE_ID") ≡ some id) × (id ≢ 0))
    × ((port : ℤ) × (atoi (env "MEMBERLIST_BIND_PORT") ≡ some port))

-- What an error says of the environment.
abbrev pub Blames : Env → Error → Type 0
Blames env (required key) =
    ((has_key key ("MEMBERLIST_BIND_PORT" ∷ required_keys) ≡ true) × (env key ≡ []))
    ⊎ ((key ≡ "NODE_ID") × (parse_uint (env key) ≡ some 0))
Blames env (invalid key) = (key ≡ "MEMBERLIST_BIND_PORT") × (env key ≢ []) × (atoi (env key) ≡ none)
Blames env (not_uint v) = (env "NODE_ID" ≡ v) × (parse_uint v ≡ none)

-- What a loader's answer says of the environment.
pub data Verdict {A : Type 0} (env : Env) (P : Type 0) : Result A → Type 0 where
  accepts : (a : A) → P → Verdict env P (ok a)
  refuses : (e : Error) → Blames env e → Verdict env P (err e)

module _ (env : Env) where
  -- A step of a loader: what it tests is known in the rest, and its error is just.
  bind-Verdict :
      {A B : Type 0} {P Q : Type 0} {m : Result A} (f : A → Result B)
      → Verdict env P m
      → ((a : A) → P → Verdict env Q (f a))
      → Verdict env Q (m >>= f)
  bind-Verdict f (accepts a p) rest = rest a p
  bind-Verdict f (refuses e b) rest = refuses e b

  -- A variable that is required, and then the rest.
  need_value :
      {B : Type 0} {Q : Type 0} (key : String) (f : Text → Result B)
      → has_key key ("MEMBERLIST_BIND_PORT" ∷ required_keys) ≡ true
      → ((v : Text) → env key ≡ v → env key ≢ [] → Verdict env Q (f v))
      → Verdict env Q (require env key >>= f)
  unfolding require
  need_value {B} {Q} key f known rest = go (env key) refl
    where
      go :
          (v : Text)
          → env key ≡ v
          → Verdict env Q (elim v [ [] ↦ err (required key) | c ∷ s ↦ ok (c ∷ s) ] >>= f)
      go [] e = refuses (required key) (inl (known, e))
      go (c ∷ s) e = rest (c ∷ s) e (λ p. cc)

  need :
      {B : Type 0} {Q : Type 0} (key : String) {f : Text → Result B}
      → has_key key ("MEMBERLIST_BIND_PORT" ∷ required_keys) ≡ true
      → ((v : Text) → env key ≢ [] → Verdict env Q (f v))
      → Verdict env Q (require env key >>= f)
  need key {f} known rest = need_value key f known (λ v e h. rest v h)

  load_server_config-Verdict : Verdict env (env "GRPC_PORT" ≢ []) (load_server_config env)
  unfolding load_server_config
  load_server_config-Verdict = need "GRPC_PORT" refl (λ a h. accepts _ h)

  load_database_config-Verdict :
      Verdict env
        (All
          (λ key. env key ≢ [])
          ("POSTGRES_HOST" ∷ "POSTGRES_PORT" ∷ "POSTGRES_USER" ∷ "POSTGRES_PASSWORD" ∷ "POSTGRES_DB"
            ∷ "POSTGRES_SSL_MODE" ∷ []))
        (load_database_config env)
  unfolding load_database_config
  load_database_config-Verdict = need "POSTGRES_HOST" refl (λ v h.
      need "POSTGRES_PORT" refl (λ v h2. need "POSTGRES_USER" refl (λ v h3.
        need "POSTGRES_PASSWORD" refl (λ v h4. need "POSTGRES_DB" refl (λ v h5.
          need "POSTGRES_SSL_MODE" refl
            (λ v h6. accepts _ (h, (h2, (h3, (h4, (h5, (h6, tt))))))))))))

  load_storage_config-Verdict :
      Verdict env
        (All
          (λ key. env key ≢ [])
          ("STORAGE_ENDPOINT" ∷ "STORAGE_BUCKET" ∷ "STORAGE_ACCESS_KEY" ∷ "STORAGE_SECRET_KEY"
            ∷ "STORAGE_REGION" ∷ []))
        (load_storage_config env)
  unfolding load_storage_config
  load_storage_config-Verdict = need "STORAGE_ENDPOINT" refl (λ v h.
      need "STORAGE_BUCKET" refl (λ v h2. need "STORAGE_ACCESS_KEY" refl (λ v h3.
        need "STORAGE_SECRET_KEY" refl (λ v h4.
          need "STORAGE_REGION" refl (λ v h5. accepts _ (h, (h2, (h3, (h4, (h5, tt))))))))))

  abbrev HasId : Type 0
  HasId = (id : ℕ) × (parse_uint (env "NODE_ID") ≡ some id) × (id ≢ 0)

  node_id-Verdict :
      Verdict env HasId
        (or_not_uint (env "NODE_ID") (parse_uint (env "NODE_ID")) >>= positive "NODE_ID")
  node_id-Verdict = go (parse_uint (env "NODE_ID")) refl
    where
      go :
          (o : Option ℕ)
          → parse_uint (env "NODE_ID") ≡ o
          → Verdict env HasId (or_not_uint (env "NODE_ID") o >>= positive "NODE_ID")
      go none e = refuses (not_uint (env "NODE_ID")) (refl, e)
      go (some id) e = elim (Bool-cases (id == 0)) [
        | inl z ↦ rw z (refuses (required "NODE_ID") (inr (refl, ground arith)))
        | inr n ↦ rw n (accepts id (id, e, ground arith))
      ]

  load_node_config-Verdict : Verdict env (HasId × (env "NODE_ADDRESS" ≢ [])) (load_node_config env)
  unfolding load_node_config
  load_node_config-Verdict =
      bind_twice _ (or_not_uint (env "NODE_ID") (parse_uint (env "NODE_ID"))) (
        bind-Verdict _ node_id-Verdict (λ id h. need "NODE_ADDRESS" refl (λ v a. accepts _ (h, a))))
    where
      bind_twice :
          {B : Type 0} {Q : Type 0} (f : ℕ → Result B) (m : Result ℕ)
          → Verdict env Q ((m >>= positive "NODE_ID") >>= f)
          → Verdict env Q (m >>= λ parsed. positive "NODE_ID" parsed >>= f)
      bind_twice f (ok a) h = h
      bind_twice f (err e) h = h

  abbrev HasPort : Type 0
  HasPort = (port : ℤ) × (atoi (env "MEMBERLIST_BIND_PORT") ≡ some port)

  port-Verdict :
      (v : Text)
      → env "MEMBERLIST_BIND_PORT" ≡ v
      → env "MEMBERLIST_BIND_PORT" ≢ []
      → Verdict env HasPort (or_invalid "MEMBERLIST_BIND_PORT" (atoi v))
  port-Verdict v e set = go (atoi v) refl
    where
      go : (o : Option ℤ) → atoi v ≡ o → Verdict env HasPort (or_invalid "MEMBERLIST_BIND_PORT" o)
      go none p = refuses (invalid "MEMBERLIST_BIND_PORT") (refl, set, rw e p)
      go (some port) p = accepts port (port, rw e p)

  load_memberlist_config-Verdict :
      (parse_duration : Text → Option ℤ)
      → Verdict env
          ((env "MEMBERLIST_BIND_ADDR" ≢ []) × (env "MEMBERLIST_SEEDS" ≢ []) × HasPort)
          (load_memberlist_config parse_duration env)
  unfolding load_memberlist_config
  load_memberlist_config-Verdict parse_duration = need "MEMBERLIST_BIND_ADDR" refl (λ v h.
      need_value "MEMBERLIST_BIND_PORT" _ refl (λ port e h2.
        need "MEMBERLIST_SEEDS" refl
          (λ v h3. bind-Verdict _ (port-Verdict port e h2) (λ p has. accepts _ (h, h3, has)))))

  load-Verdict :
      (parse_duration : Text → Option ℤ) → Verdict env (IsComplete env) (load parse_duration env)
  unfolding load
  load-Verdict parse_duration = bind-Verdict _ load_node_config-Verdict (λ node h.
      bind-Verdict _ load_server_config-Verdict (λ server h2.
        bind-Verdict _ load_database_config-Verdict (λ db h3.
          bind-Verdict _ load_storage_config-Verdict (λ storage h4.
            bind-Verdict _ (load_memberlist_config-Verdict parse_duration)
              (λ memberlist h5. accepts _ (join_facts h h2 h3 h4 h5))))))
    where
      join_facts :
          HasId × (env "NODE_ADDRESS" ≢ [])
          → env "GRPC_PORT" ≢ []
          → All
              (λ key. env key ≢ [])
              ("POSTGRES_HOST" ∷ "POSTGRES_PORT" ∷ "POSTGRES_USER" ∷ "POSTGRES_PASSWORD"
                ∷ "POSTGRES_DB" ∷ "POSTGRES_SSL_MODE" ∷ [])
          → All
              (λ key. env key ≢ [])
              ("STORAGE_ENDPOINT" ∷ "STORAGE_BUCKET" ∷ "STORAGE_ACCESS_KEY" ∷ "STORAGE_SECRET_KEY"
                ∷ "STORAGE_REGION" ∷ [])
          → (env "MEMBERLIST_BIND_ADDR" ≢ []) × (env "MEMBERLIST_SEEDS" ≢ []) × HasPort
          → IsComplete env
      join_facts (id, a) p (d, (d2, (d3, (d4, (d5, (d6, _)))))) (s, (s2, (s3, (s4, (s5, _)))))
            (b, m, port) =
          (
            (a, (p, (d, (d2, (d3, (d4, (d5, (d6, (s, (s2, (s3, (s4, (s5, (b, (m, tt))))))))))))))),
            id,
            port,
          )

atoi-nil : (v : Text) (port : ℤ) → atoi v ≡ some port → v ≢ []
unfolding atoi
atoi-nil [] port e n = cc
atoi-nil (c ∷ v) port e n = cc

-- `Load` answers a configuration if every variable without a default is set, NODE_ID is a positive
-- uint64 and MEMBERLIST_BIND_PORT an int. Otherwise it answers an error: one that names a variable that
-- is missing, NODE_ID if it is 0, or MEMBERLIST_BIND_PORT if it is set and cannot be read; or, if
-- NODE_ID cannot be read, that of `strconv.ParseUint`, which quotes its value and does not name it.
pub load_verdict :
    (parse_duration : Text → Option ℤ) (env : Env)
    → (IsComplete env × ((c : Config) × (load parse_duration env ≡ ok c)))
      ⊎ ((¬ IsComplete env) × ((e : Error) × (load parse_duration env ≡ err e) × Blames env e))
load_verdict parse_duration env = go (load parse_duration env) (load-Verdict env parse_duration)
  where
    not_both : (e : Error) → IsComplete env → Blames env e → ⊥
    not_both (required key) (keys, id, port) (inl (known, b)) =
        All-has_key (λ k. env k ≢ []) key ("MEMBERLIST_BIND_PORT" ∷ required_keys)
          (atoi-nil (env "MEMBERLIST_BIND_PORT") port.0 port.1, keys) known b
    not_both (required key) (keys, (id, read, n), port) (inr (same, b)) =
        n (cc (subst (λ k. parse_uint (env k) ≡ some 0) same b))
    not_both (invalid key) (keys, id, (port, read)) (same, set, b) =
        cc (subst (λ k. atoi (env k) ≡ none) same b)
    not_both (not_uint v) (keys, (id, read, n), port) (same, b) = cc

    go :
        (r : Result Config)
        → Verdict env (IsComplete env) r
        → (IsComplete env × ((c : Config) × (r ≡ ok c)))
          ⊎ ((¬ IsComplete env) × ((e : Error) × (r ≡ err e) × Blames env e))
    go _ (accepts c p) = inl (p, (c, refl))
    go _ (refuses e b) = inr (λ p. not_both e p b, (e, refl, b))

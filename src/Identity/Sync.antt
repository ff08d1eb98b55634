-- ===== src/Identity/Sync.antt =====
-- The clients of the environment are the ones that get tokens, and only for what the policy says.
-- services/identity/src/modules/oauth
use mathlib.Core.Option
use text.Mathlib.TextEquality.{eq_iff}
use seapedia.Prelude.{
  ◌≡◌, refl, ap, ◌∙◌, suc, All-imp, eq_of_==, ◌<◌, ◌≤◌, arith, inl, inr, Bool, true, false, Option,
  none, some, List, [], ◌∷◌, String, find, find-append, find_test, find-append_miss, find-update,
  find-update_miss, select, All, All-select_test, All-intro, Option-cases, Bool-cases,
  if◌then◌else◌, is_some, length, ◌==◌,
}
use seapedia.Platform.Monad.{Env}
use seapedia.Identity.Schema.{same_text, same_text_refl}
use seapedia.Identity.Clients.{
  ServiceClient, is_client, Client, is_listed, rehashed, upsert_client, upsert_clients,
  sync_clients, authenticate_client, service_policy, contains, TokenAnswer, invalid_client,
  invalid_scope, granted, answer_scopes, wanted, token,
}

-- The secret that the environment gives to a client.
abbrev pub secret_of : String → List Client → Option String
secret_of id [] = none
secret_of id ((k, secret) ∷ cs) =
    let later = secret_of id cs in
    if is_some later then later else if same_text k id then some secret else none

text_eq : (a b : String) → same_text a b ≡ true → a ≡ b
text_eq a b h = (eq_iff a b).0 h

other_text :
    (a k id : String) → same_text a k ≡ true → same_text k id ≡ false → same_text a id ≡ false
other_text a k id h n = rw (text_eq a k h) n

module _ (sha256 : String → String) where
  abbrev hash_of : String → List ServiceClient → Option String
  hash_of id rows = Option.map (λ (c : ServiceClient). c.secret_hash) (find (is_client id) rows)

  upsert_client-hash :
      (env : Env) (id k secret : String) (rows : List ServiceClient)
      → hash_of id (upsert_client sha256 env (k, secret) rows)
        ≡ (if same_text k id then some (sha256 secret) else hash_of id rows)
  upsert_client-hash env id k secret rows = elim (Bool-cases (same_text k id)) [
    | inl same ↦
        rw (text_eq k id same, same_text_refl id)
          (elim (Option-cases (find (is_client id) rows)) [
            | inl f ↦
                rw f
                  (rw (find-append (is_client id) rows (row id) f, same_text_refl id, Option.map))
            | inr (c, f) ↦ rw f (
                rw (
                  find-update (is_client id) (is_client id) (rehashed sha256 env secret) rows
                      (λ _. refl),
                  f,
                  Option.map,
                  find_test (is_client id) rows f,
                ))
          ])
    | inr other ↦ rw other (elim (Option-cases (find (is_client k) rows)) [
      | inl f ↦ rw f (ap (Option.map hash) (find-append_miss (is_client id) rows (row k) other))
      | inr (c, f) ↦ rw f (
          ap (Option.map hash) (
            find-update_miss (is_client id) (is_client k) (rehashed sha256 env secret) rows
              (λ x h. other_text x.client_id k id h other)
              (λ x h. other_text x.client_id k id h other)))
    ])
  ]
    where
      hash : ServiceClient → String
      hash c = c.secret_hash

      row : String → ServiceClient
      row x = record { client_id = x; secret_hash = sha256 secret; updated_at = env.now }

  abbrev or_known : Option String → Option String → Option String
  or_known none o = o
  or_known (some secret) _ = some (sha256 secret)

  upsert_clients-hash :
      (env : Env) (id : String) (cs : List Client) (rows : List ServiceClient)
      → hash_of id (upsert_clients sha256 env cs rows)
        ≡ or_known (secret_of id cs) (hash_of id rows)
  upsert_clients-hash env id [] rows = refl
  upsert_clients-hash env id ((k, secret) ∷ cs) rows =
      upsert_clients-hash env id cs (upsert_client sha256 env (k, secret) rows)
      ∙ ap (or_known (secret_of id cs)) (upsert_client-hash env id k secret rows)
      ∙ go (secret_of id cs) (same_text k id)
    where
      go :
          (later : Option String) (b : Bool)
          → or_known later (if b then some (sha256 secret) else hash_of id rows)
            ≡ or_known
                (if is_some later then later else if b then some secret else none)
                (hash_of id rows)
      go none true = refl
      go none false = refl
      go (some _) b = refl

  -- A row that a select keeps is of a client that the environment lists.
  not_kept :
      (id : String) (cs : List Client)
      → secret_of id cs ≡ none
      → (c : ServiceClient) → is_listed cs c ≡ true
      → is_client id c ≡ false
  not_kept id [] e c h = cc
  not_kept id ((k, secret) ∷ cs) e c h = elim (Option-cases (secret_of id cs)) [
    | inr (s, f) ↦ cc (rw f at e)
    | inl f ↦ elim (Bool-cases (same_text k id)) [
      | inl same ↦ cc (rw (f, same) at e)
      | inr other ↦ elim (Bool-cases (same_text c.client_id k)) [
        | inl m ↦ other_text c.client_id k id m other
        | inr m ↦ not_kept id cs f c (rw m at h)
      ]
    ]
  ]

  unlisted :
      (id : String) (cs : List Client) (rows : List ServiceClient)
      → secret_of id cs ≡ none
      → find (is_client id) (select (is_listed cs) rows) ≡ none
  unlisted id cs [] e = refl
  unlisted id cs (c ∷ rows) e = elim (Bool-cases (is_listed cs c)) [
    | inl t ↦ rw (t, not_kept id cs e c t) (unlisted id cs rows e)
    | inr t ↦ rw t (unlisted id cs rows e)
  ]

  abbrev matches : String → Option String → Bool
  matches secret none = false
  matches secret (some h) = same_text h (sha256 secret)

  by_hash :
      (id secret : String) (rows : List ServiceClient)
      → authenticate_client sha256 id secret rows ≡ matches secret (hash_of id rows)
  unfolding authenticate_client
  by_hash id secret rows = elim (Option-cases (find (is_client id) rows)) [
    | inl e ↦ rw (e, authenticate_client)
    | inr (c, e) ↦ rw (e, authenticate_client)
  ]

  -- After a sync, whatever rows there were, a client is authenticated by a secret just if the environment
  -- gives it one with the same hash: a client that was removed is refused, and one whose secret changed
  -- by its old secret, unless the two hash alike.
  pub sync_authenticates :
      (env : Env) (clients : List Client) (rows : List ServiceClient) (id secret : String)
      → authenticate_client sha256 id secret (sync_clients sha256 env clients rows)
        ≡ (elim (secret_of id clients) [
          | none ↦ false
          | some s ↦ same_text (sha256 s) (sha256 secret)
        ])
  unfolding sync_clients
  sync_authenticates env clients rows id secret =
      by_hash id secret (sync_clients sha256 env clients rows)
      ∙ ap (matches secret) (upsert_clients-hash env id clients kept)
      ∙ elim (Option-cases (secret_of id clients)) [
        | inl e ↦ rw (e, unlisted id clients rows e)
        | inr (s, e) ↦ rw e
      ]
    where
      kept : List ServiceClient
      kept = select (is_listed clients) rows

-- What is asked for: the named scopes, or all that the policy has.
abbrev pub asked : String → String → List String → List String
asked id audience [] = service_policy id audience
asked id audience (r ∷ rs) = r ∷ rs

abbrev pub IsGrant : String → String → List String → TokenAnswer → Type 0
IsGrant id audience requested (granted scopes) =
    All (λ s. contains (service_policy id audience) s ≡ true) scopes
    × (0 < length scopes)
    × (scopes ≡ asked id audience requested)
IsGrant id audience requested invalid_client = Unit
IsGrant id audience requested invalid_scope = Unit

contains_self : (xs : List String) → All (λ s. contains xs s ≡ true) xs
contains_self [] = tt
contains_self (x ∷ xs) = (
  rw (same_text_refl x),
  All-imp (λ s. contains xs s ≡ true) (λ s. contains (x ∷ xs) s ≡ true) (λ s h. ground arith) xs
      (contains_self xs),
)

length-select : (p : String → Bool) (xs : List String) → length (select p xs) ≤ length xs
length-select p [] = omega arith
length-select p (x ∷ xs) = ground (arith, length-select p xs)

-- A select that keeps the length keeps everything.
select_all :
    (p : String → Bool) (xs : List String) → length (select p xs) ≡ length xs → select p xs ≡ xs
select_all p [] e = refl
select_all p (x ∷ xs) e = elim (Bool-cases (p x)) [
  | inl t ↦
      let shorter : suc (length (select p xs)) ≡ suc (length xs) = rw t at e in
      rw t (ap (λ r. x ∷ r) (select_all p xs (omega arith)))
  | inr t ↦
      let same : length (select p xs) ≡ suc (length xs) = rw t at e in
      absurd (omega (arith, length-select p xs))
]

answer-IsGrant :
    (id audience : String) (requested scopes : List String)
    → All (λ s. contains (service_policy id audience) s ≡ true) scopes
    → (length scopes ≡ length (asked id audience requested) → scopes ≡ asked id audience requested)
    → (requested ≡ [] → scopes ≡ service_policy id audience)
    → IsGrant id audience requested (answer_scopes requested scopes)
answer-IsGrant id audience requested [] h same none_named = tt
answer-IsGrant id audience [] (s ∷ ss) h same none_named = (h, omega arith, none_named refl)
answer-IsGrant id audience (r ∷ rs) (s ∷ ss) h same none_named =
    elim (Bool-cases (length (s ∷ ss) == length (r ∷ rs))) [
      | inl e ↦ rw e (h, omega arith, same (eq_of_== (length (s ∷ ss)) (length (r ∷ rs)) e))
      | inr e ↦ rw e tt
    ]

-- A token carries at least one scope, only scopes that the policy has for the client and the audience, and
-- all of what was asked for: the named scopes, or those of the policy where none is named.
pub token-IsGrant :
    (sha256 : String → String) (id secret audience : String) (requested : List String)
    (rows : List ServiceClient)
    → IsGrant id audience requested (token sha256 id secret audience requested rows)
unfolding token
token-IsGrant sha256 id secret audience requested rows =
    elim (Bool-cases (authenticate_client sha256 id secret rows)) [
      | inr e ↦ rw e tt
      | inl e ↦ rw e (go requested)
    ]
  where
    policy : List String
    policy = service_policy id audience

    go : (req : List String) → IsGrant id audience req (answer_scopes req (wanted req policy))
    go [] = answer-IsGrant id audience [] policy (contains_self policy) (λ _. refl) (λ _. refl)
    go (r ∷ rs) =
        answer-IsGrant id audience (r ∷ rs) (select (contains policy) (r ∷ rs))
          (All-select_test (λ _. Unit {0}) (λ s. contains policy s ≡ true) (contains policy)
            (r ∷ rs) (λ s _ t. t) (All-intro (λ _. Unit {0}) (λ _. tt) (r ∷ rs)))
          (select_all (contains policy) (r ∷ rs)) (λ e. cc)

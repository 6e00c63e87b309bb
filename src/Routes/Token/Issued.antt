-- ===== src/Routes/Token/Issued.antt =====
-- routes/token.py: the row and the response of an issued token.
use python_oauth2_server.Prelude.{
  is_some, eq_iff, ℕ, String, refl, sym, ap, Bool, true, false, Option, none, some, List, [], arith,
  Result, ok, err, guard_ok, if◌then◌else◌, ◌==◌, ◌≡◌, ◌∙◌, ◌≢◌, ◌∷◌, ◌++◌,
}
use python_oauth2_server.Json.{Fields}
use python_oauth2_server.Errors.{Description}
use python_oauth2_server.Models.{Client, AuthorizationCode, Token, TokenResponse, Claims}
use python_oauth2_server.Storage.{save_token}
use python_oauth2_server.Services.Dpop.{DpopValidated}
use python_oauth2_server.Services.Scope.{scope_is_subset}
use python_oauth2_server.Services.Scope.Laws.{scope_is_subset_refl}
use python_oauth2_server.Services.Tokens.{
  Config, Fresh, Grant, issue, new_claims, access_token_of, audience_of,
}
use python_oauth2_server.Routes.Token.{
  Library, AppState, Response, granted, exchanged, invalid_client_response, Refusal, plain,
  unrecognized, crash, expired_code, reuse, refuse, after_checks, requested_scope, issue_token,
  respond, proves,
}

-- One live row was added to the tokens, for this client and with what the grant says; the response
-- carries its tokens and its scope.
pub record Issued (before after : List Token) (client : Client) (g : Grant) (r : TokenResponse)
    : Type 0 where
  pub row : Token
  pub added : after ≡ before ++ row ∷ []
  pub live : row.revoked ≡ false
  pub of_client : row.client_id ≡ client.client_id
  pub of_user : row.user_id ≡ g.user_id
  pub of_family : row.token_family ≡ g.token_family
  pub of_scope : row.scope ≡ g.scope
  pub same_scope : r.scope ≡ g.scope
  pub same_access : r.access_token ≡ row.access_token
  pub same_refresh : r.refresh_token ≡ row.refresh_token
  pub refreshes : is_some r.refresh_token ≡ g.with_refresh

-- The request proves the key, where one is demanded.
abbrev pub KeyProved : Option String → Option DpopValidated → Type 0
KeyProved none proof = Unit {0}
KeyProved (some jkt) proof = (v : DpopValidated) × (proof ≡ some v) × (v.jkt ≡ jkt)

pub proves-KeyProved :
    (jkt : String) (proof : Option DpopValidated)
    → proves jkt proof ≡ true
    → KeyProved (some jkt) proof
unfolding proves
proves-KeyProved jkt none h = cc
proves-KeyProved jkt (some v) h = (v, refl, (eq_iff _ _).0 h)

-- What the access token of a response carries, unless it is opaque.
pub record Signed (lib : Library) (config : Config) (fresh : Fresh) (r : TokenResponse)
    (claims : Claims) : Type 0 where
  pub encoded :
      r.access_token
      ≡ (if config.access_tokens_opaque then fresh.opaque_token else lib.encode_access_token claims)

pub issue_token-Signed :
    (lib : Library) (config : Config) (fresh : Fresh) (now : ℕ) (client : Client) (g : Grant)
    (st : AppState)
    → Signed lib config fresh
        (issue_token lib config fresh now client g st).1
        (new_claims config fresh now client g)
unfolding issue_token issue access_token_of
issue_token-Signed lib config fresh now client g st = record { encoded = refl }

-- The resource that is named, or else the client.
abbrev pub meant : Option String → String → String
meant none client_id = client_id
meant (some resource) client_id = if resource == "" then client_id else resource

pub meant_lem :
    (resource : Option String) (client_id : String)
    → audience_of none resource client_id ≡ meant resource client_id ∷ []
unfolding audience_of
meant_lem none client_id = refl
meant_lem (some r) client_id = ground arith

is_some-if : (b : Bool) (s : String) → is_some (if b then some s else none) ≡ b
is_some-if true s = refl
is_some-if false s = refl

pub issue_token-Issued :
    (lib : Library) (config : Config) (fresh : Fresh) (now : ℕ) (client : Client) (g : Grant)
    (st : AppState)
    → Issued st.storage.tokens
        (issue_token lib config fresh now client g st).0.storage.tokens
        client
        g
        (issue_token lib config fresh now client g st).1
unfolding issue_token issue save_token
issue_token-Issued lib config fresh now client g st = record {
  row = _;
  added = refl;
  live = refl;
  of_client = refl;
  of_user = refl;
  of_family = refl;
  of_scope = refl;
  same_scope = refl;
  same_access = refl;
  same_refresh = refl;
  refreshes = is_some-if g.with_refresh fresh.refresh_token;
}

-- A response of `respond` keeps the tokens and the scope.
pub respond-keeps :
    (lib : Library) (client : Client) (proof : Option DpopValidated) (user : Option String)
    (code : Option AuthorizationCode) (r a : TokenResponse) (n : Bool)
    → respond lib client proof user code r ≡ granted a n
    → (a.access_token ≡ r.access_token) × (a.refresh_token ≡ r.refresh_token) × (a.scope ≡ r.scope)
unfolding respond
respond-keeps lib client proof user code r a n h = ground arith

pub respond-Issued :
    (lib : Library) (client : Client) (proof : Option DpopValidated) (user : Option String)
    (code : Option AuthorizationCode) (r a : TokenResponse) (n : Bool) (before after : List Token)
    (g : Grant)
    → Issued before after client g r
    → respond lib client proof user code r ≡ granted a n
    → Issued before after client g a
respond-Issued lib client proof user code r a n before after g issued h =
    let (access, refresh, scope) = respond-keeps lib client proof user code r a n h in
    record {
      row = issued.row;
      added = issued.added;
      live = issued.live;
      of_client = issued.of_client;
      of_user = issued.of_user;
      of_family = issued.of_family;
      of_scope = issued.of_scope;
      same_scope = scope ∙ issued.same_scope;
      same_access = access ∙ issued.same_access;
      same_refresh = refresh ∙ issued.same_refresh;
      refreshes = ap is_some refresh ∙ issued.refreshes;
    }

pub respond-Signed :
    (lib : Library) (config : Config) (fresh : Fresh) (client : Client)
    (proof : Option DpopValidated) (user : Option String) (code : Option AuthorizationCode)
    (r a : TokenResponse) (n : Bool) (claims : Claims)
    → Signed lib config fresh r claims
    → respond lib client proof user code r ≡ granted a n
    → Signed lib config fresh a claims
respond-Signed lib config fresh client proof user code r a n claims signed h = record {
  encoded = (respond-keeps lib client proof user code r a n h).0 ∙ signed.encoded;
}

-- A refusal answers with no token.
pub refuse_grants_nothing :
    (st : AppState) (r : Refusal) (a : TokenResponse) (n : Bool) → (refuse st r).1 ≢ granted a n
unfolding refuse
refuse_grants_nothing st (plain e) a n h = cc
refuse_grants_nothing st (unrecognized e) a n h = cc
refuse_grants_nothing st crash a n h = cc
refuse_grants_nothing st (expired_code c) a n h = cc
refuse_grants_nothing st (reuse f d) a n h = cc

abbrev pub Grants : TokenResponse → Bool → AppState × Response → Type 0
Grants a n p = p.1 ≡ granted a n

-- A grant that answers with a token has passed its checks.
pub after_checks_granted {ℓ} :
    {A : Type ℓ} (m : Result Refusal A) (st : AppState) (k : A → AppState × Response)
    (r : TokenResponse) (n : Bool)
    → Grants r n (after_checks m st k)
    → (a : A) × (m ≡ ok a) × (after_checks m st k ≡ k a) × Grants r n (k a)
unfolding after_checks
after_checks_granted (err e) st k r n h = absurd (refuse_grants_nothing st e r n h)
after_checks_granted (ok a) st k r n h = (a, refl, refl, h)

abbrev pub Exchanges : TokenResponse → Option Fields → Bool → AppState × Response → Type 0
Exchanges a act n p = p.1 ≡ exchanged a act n

refuse_exchanges_nothing :
    (st : AppState) (e : Refusal) (r : TokenResponse) (a : Option Fields) (n : Bool)
    → (refuse st e).1 ≢ exchanged r a n
unfolding refuse
refuse_exchanges_nothing st (plain e) r a n h = cc
refuse_exchanges_nothing st (unrecognized e) r a n h = cc
refuse_exchanges_nothing st crash r a n h = cc
refuse_exchanges_nothing st (expired_code c) r a n h = cc
refuse_exchanges_nothing st (reuse f d) r a n h = cc

pub after_checks_exchanged {ℓ} :
    {A : Type ℓ} (m : Result Refusal A) (st : AppState) (k : A → AppState × Response)
    (r : TokenResponse) (act : Option Fields) (n : Bool)
    → Exchanges r act n (after_checks m st k)
    → (a : A) × (m ≡ ok a) × (after_checks m st k ≡ k a) × Exchanges r act n (k a)
unfolding after_checks
after_checks_exchanged (err e) st k r act n h = absurd (refuse_exchanges_nothing st e r act n h)
after_checks_exchanged (ok a) st k r act n h = (a, refl, refl, h)

pub invalid_client_never_exchanges :
    (st : AppState) (monotonic now : ℕ) (client_id : Option String) (description : Description)
    (r : TokenResponse) (a : Option Fields) (n : Bool)
    → (invalid_client_response st monotonic now client_id description).1 ≢ exchanged r a n
unfolding invalid_client_response
invalid_client_never_exchanges st monotonic now client_id description r a n h = ground arith

pub invalid_client_never_grants :
    (st : AppState) (monotonic now : ℕ) (client_id : Option String) (description : Description)
    (r : TokenResponse) (n : Bool)
    → (invalid_client_response st monotonic now client_id description).1 ≢ granted r n
unfolding invalid_client_response
invalid_client_never_grants st monotonic now client_id description r n h = ground arith

-- The scope that is asked for, or else all that is allowed.
abbrev pub AskedScope : Option String → String → String → Type 0
AskedScope none allowed scope = scope ≡ allowed
AskedScope (some asked) allowed scope = scope ≡ asked

pub scope_asked :
    (asked : Option String) (allowed message scope : String)
    → requested_scope asked allowed message ≡ ok scope
    → AskedScope asked allowed scope
unfolding requested_scope
scope_asked none allowed message scope h = cc
scope_asked (some s) allowed message scope h =
    let (narrow, rest) = guard_ok (scope_is_subset s allowed) _ _ _ h in cc

-- The scope of a grant is the one allowed, or a part of it.
pub scope_checked :
    (asked : Option String) (allowed message scope : String)
    → requested_scope asked allowed message ≡ ok scope
    → scope_is_subset scope allowed ≡ true
unfolding requested_scope
scope_checked none allowed message scope h =
    let same : allowed ≡ scope = cc in rw (sym same) (scope_is_subset_refl allowed)
scope_checked (some s) allowed message scope h =
    let (narrow, rest) = guard_ok (scope_is_subset s allowed) _ _ _ h in
    let same : s ≡ scope = cc in rw (sym same) narrow

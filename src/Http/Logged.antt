-- ===== src/Http/Logged.antt =====
-- What the filter of all errors and the logging interceptor let out of a request.
use gym_saas_be.Prelude.{
  ℕ, ◌≡◌, refl, ◌<◌, ◌≤◌, inl, inr, Bool, true, not, Option, none, some, [], ◌∷◌, Text, all, leb,
  ◌==◌, arith, Bool-cases, subst, sym, ◌≢◌, ◌⊎◌, ◌++◌, ap, ==_iff, if◌then◌else◌, leb→le,
}
use gym_saas_be.Store.{Time}
use gym_saas_be.Errors.{Exception}
use gym_saas_be.Entities.{Action}
use gym_saas_be.Auth.Context.{AuthContext}
use gym_saas_be.Http.Failures.{HttpExceptions, resolve}
use gym_saas_be.Http.Logging.{
  RequestLine, ErrorResponseBody, HttpErrorLog, Names, before_mark, or_text, before_mark_or,
  path_without_query, catch_any, error_log, intercept, request_log,
}

-- Without a question mark, so without a query.
abbrev pub IsQueryFree : Text → Type 0
IsQueryFree s = all s (λ c. not (c == b'?')) ≡ true

before_mark-IsQueryFree : (s : Text) → IsQueryFree (before_mark s)
unfolding before_mark
before_mark-IsQueryFree [] = refl
before_mark-IsQueryFree (c ∷ s) = ground (arith, before_mark-IsQueryFree s)

or_text-IsQueryFree : (a b : Text) → IsQueryFree a → IsQueryFree b → IsQueryFree (or_text a b)
or_text-IsQueryFree [] b p q = q
or_text-IsQueryFree (c ∷ s) b p q = p

before_mark_or-IsQueryFree :
    (o : Option Text) (b : Text) → IsQueryFree b → IsQueryFree (before_mark_or o b)
unfolding before_mark_or
before_mark_or-IsQueryFree none b q = q
before_mark_or-IsQueryFree (some a) b q =
    or_text-IsQueryFree (before_mark a) b (before_mark-IsQueryFree a) q

-- Nothing, or a query.
abbrev pub BeginsQuery : Text → Type 0
BeginsQuery [] = Unit {0}
BeginsQuery (c ∷ s) = c ≡ b'?'

-- The part of an address before its query, which is all that follows.
abbrev pub IsCut : (address part : Text) → Type 0
IsCut address part = (rest : Text) × (address ≡ part ++ rest) × BeginsQuery rest × IsQueryFree part

before_mark-IsCut : (s : Text) → IsCut s (before_mark s)
unfolding before_mark
before_mark-IsCut [] = ([], refl, tt, refl)
before_mark-IsCut (c ∷ s) = elim (Bool-cases (c == b'?')) [
  | inl e ↦
      let here : before_mark (c ∷ s) ≡ [] = ground arith in
      subst (IsCut (c ∷ s)) (sym here) (c ∷ s, refl, (==_iff c b'?').0 e, refl)
  | inr n ↦
      let (rest, q, begins, free) = before_mark-IsCut s in
      let here : before_mark (c ∷ s) ≡ c ∷ before_mark s = ground arith in
      subst (IsCut (c ∷ s)) (sym here)
        (rest, ap (λ (x : Text). c ∷ x) q, begins, ground (arith, free))
]

-- What is taken for the path of a request: the parsed path if it is not empty, else the original
-- address without its query if there is one and that is not empty, else the address without its
-- query.
abbrev pub IsPath : (parsed : Text) → (original : Option Text) → (url taken : Text) → Type 0
IsPath parsed original url taken =
    ((parsed ≢ []) × (taken ≡ parsed))
    ⊎ ((parsed ≡ [])
        × (address : Text) × (original ≡ some address)
        × IsCut address taken
        × (taken ≢ []))
    ⊎ ((parsed ≡ [])
        × ((address : Text) → original ≡ some address → IsCut address [])
        × IsCut url taken)

taken-IsPath :
    (parsed : Text) (original : Option Text) (url : Text)
    → IsPath parsed original url (or_text parsed (before_mark_or original (before_mark url)))
unfolding before_mark_or
taken-IsPath (c ∷ s) original url = inl ((λ z. cc), refl)
taken-IsPath [] none url = inr (inr (refl, (λ a e. cc), before_mark-IsCut url))
taken-IsPath [] (some a) url = by_cut (before_mark a) refl
  where
    by_cut :
        (cut : Text)
        → before_mark a ≡ cut
        → IsPath [] (some a) url (or_text (before_mark a) (before_mark url))
    by_cut [] q =
        let whole : IsCut a [] = subst (IsCut a) q (before_mark-IsCut a) in
        rw q (
          inr (
            inr (
              refl,
              (λ b e. subst (λ (x : Text). IsCut x []) (ground arith) whole),
              before_mark-IsCut url,
            )))
    by_cut (c ∷ s) q =
        rw q (inr (inl (refl, a, refl, subst (IsCut a) q (before_mark-IsCut a), λ z. cc)))

abbrev pub IsPathOf : RequestLine → Text → Type 0
IsPathOf request taken = IsPath request.path request.original_url request.url taken

path-IsPathOf : (request : RequestLine) → IsPathOf request (path_without_query request)
unfolding path_without_query
path-IsPathOf request = taken-IsPath request.path request.original_url request.url

path-IsQueryFree :
    (request : RequestLine) → IsQueryFree request.path → IsQueryFree (path_without_query request)
unfolding path_without_query
path-IsQueryFree request p =
    or_text-IsQueryFree request.path (before_mark_or request.original_url (before_mark request.url))
      p
      (before_mark_or-IsQueryFree request.original_url (before_mark request.url)
        (before_mark-IsQueryFree request.url))

module _ (h : HttpExceptions) (n : Names) where
  -- What is logged for a response: nothing below 500, and otherwise an entry of the same request.
  abbrev pub IsLogFor : ErrorResponseBody → Option HttpErrorLog → Type 0
  IsLogFor body none = body.status_code < 500
  IsLogFor body (some e) =
      (500 ≤ body.status_code)
      × (e.status_code ≡ body.status_code)
      × (e.request_id ≡ body.request_id)
      × (e.path ≡ body.path)

  decided-IsLogFor :
      (body : ErrorResponseBody) (e : HttpErrorLog)
      → e.status_code ≡ body.status_code
      → e.request_id ≡ body.request_id
      → e.path ≡ body.path
      → IsLogFor body (if leb 500 body.status_code then some e else none)
  decided-IsLogFor body e same_status same_id same_path =
      elim (Bool-cases (leb 500 body.status_code)) [
        | inl q ↦
            subst (λ (b : Bool). IsLogFor body (if b then some e else none)) (sym q)
              (leb→le 500 body.status_code q, same_status, same_id, same_path)
        | inr q ↦
            subst (λ (b : Bool). IsLogFor body (if b then some e else none)) (sym q) (ground arith)
      ]

  -- If the parsed path of a request has no query, the field `path` of the answer to an error has
  -- none: it is the parsed path, or if that is empty the part of the original address, else of the
  -- address, before its query; and the entries logged for the error and for the handler have the
  -- same `path`. The answer has the status
  -- of its body, which is the one that the error is resolved to; an entry is logged for it exactly
  -- from 500 on, with that status and the same request id; and the interceptor passes the result of
  -- the handler on.
  pub catch_any_lem :
      {A S : Type 0} (context : Option AuthContext) (now started_at : Time) (request : RequestLine)
      (x : Exception) (handler : Action S A) (s : S) (status_code : ℕ)
      → IsQueryFree request.path
      → let caught = catch_any h n context now request x in
        let handled = intercept h n context request status_code started_at now handler s in
        (caught.0.0 ≡ (resolve h x).status_code)
        × (caught.0.1.status_code ≡ caught.0.0)
        × IsQueryFree caught.0.1.path
        × IsPathOf request caught.0.1.path
        × IsLogFor caught.0.1 caught.1
        × (handled.0 ≡ handler s)
        × (handled.1.path ≡ caught.0.1.path)
  unfolding catch_any error_log intercept request_log
  catch_any_lem context now started_at request x handler s status_code p =
      let clean = path-IsQueryFree request p in
      (
        refl,
        refl,
        clean,
        path-IsPathOf request,
        decided-IsLogFor (catch_any h n context now request x).0.1
            (error_log context request (n.name_of x) (resolve h x)) refl refl refl,
        refl,
        refl,
      )

-- ===== src/Web/Logouts.antt =====
-- What a logout does to the session and to the cookies.
use agent_stop_and_go.Prelude.{
  ◌≡◌, refl, sym, ap, subst, String, Bool, true, false, Option, none, some, List, ◌∷◌, ltb, ◌==◌,
  if◌then◌else◌, inl, inr, ◌⊎◌,
}
use agent_stop_and_go.Mcp.{Error}
use agent_stop_and_go.Agent.Exec.{
  Result, ok, err, panic, pure, throw, panics, ◌>>=◌, resume_with, try, handle, when_some,
}
use agent_stop_and_go.Filesystem.{ok, err}
use agent_stop_and_go.Filesystem.Paths.{size}
use agent_stop_and_go.Web.{
  Session, Event, selects, deletes, revokes, Outside, State, Request, Action, set_cookie, log_id,
  does, ignoring, done_or, delete, session_cookie_name,
}
use agent_stop_and_go.Web.Oauth.{Response, redirects, cleared, revoke, found, logout_handler}
use agent_stop_and_go.Web.Tokens.{event, ignoring-delete, found_lem, row}

-- What the provider is told once the row was looked up: to revoke the token of the row that was found,
-- where the provider has an address for it.
abbrev pub told : String → Option Session → List Event → List Event
told url none es = es
told url (some sess) es = if url == "" then es else revokes url sess.access_token ∷ es

-- A logout that went through: the row is looked up, the provider is told, and the statement that
-- deletes the row is issued, in this order. The handler then panics where the identifier is too short
-- to be logged; else it redirects and clears the cookie.
pub record IsLoggedOut (out : Outside) (url id : String) (s : State) (r : Result Response × State)
    : Type 0 where
  pub events : r.1.events ≡ deletes id ∷ told url (row out id s) (selects id ∷ s.events)
  pub answer :
      ((ltb (size id) 8 ≡ true) × (r.0 ≡ panic))
      ⊎ ((ltb (size id) 8 ≡ false)
          × (r.0 ≡ ok (redirects "/"))
          × (r.1.cookies ≡ cleared session_cookie_name ∷ s.cookies))

-- An action that returns true with the given events and leaves the cookies alone.
record Passes (es : List Event) (s : State) (r : Result Bool × State) : Type 0 where
  returned : r.0 ≡ ok true
  told_so : r.1.events ≡ es
  same : r.1.cookies ≡ s.cookies

module _ (out : Outside) (secure : Bool) (url : String) where
  ignoring-Passes :
      (o : Option Error) (e : Event) (s : State)
      → Passes (e ∷ s.events) s (
          ignoring {A = Bool}
            (λ t. elim (done_or o) [
              | ok a ↦ pure {A = Bool} a (event e t)
              | err x ↦ throw x (event e t)
            ])
            s)
  unfolding ignoring try handle done_or pure throw
  ignoring-Passes none e s = record { returned = refl; told_so = refl; same = refl }
  ignoring-Passes (some x) e s = record { returned = refl; told_so = refl; same = refl }

  revoke_if-Passes :
      (b : Bool) (sess : Session) (s : State)
      → Passes (if b then s.events else revokes url sess.access_token ∷ s.events) s (
          (if b
              then pure true
              else ignoring (does (revokes url sess.access_token) (λ es. done_or (out.revoke es))))
            s)
  unfolding pure does ignoring try
  revoke_if-Passes true sess s = record { returned = refl; told_so = refl; same = refl }
  revoke_if-Passes false sess s =
      ignoring-Passes (out.revoke s.events) (revokes url sess.access_token) s

  revoke-Passes :
      (o : Option Session) (s : State)
      → Passes (told url o s.events) s (when_some o (revoke out secure url) (pure true) s)
  unfolding when_some revoke pure
  revoke-Passes none s = record { returned = refl; told_so = refl; same = refl }
  revoke-Passes (some sess) s = revoke_if-Passes (url == "") sess s

  -- The handler behind the deletion, where `short` says whether the identifier is too short.
  abbrev closing : Bool → Action Response
  closing short = do
    _ ← set_cookie (cleared session_cookie_name)
    _ ← if short then panics else pure true
    pure (redirects "/")

  closing-IsLoggedOut :
      (id : String) (s t : State) (short : Bool)
      → ltb (size id) 8 ≡ short
      → t.events ≡ told url (row out id s) (selects id ∷ s.events)
      → t.cookies ≡ s.cookies
      → IsLoggedOut out url id s (closing short (event (deletes id) t))
  unfolding ◌>>=◌ resume_with set_cookie panics pure
  closing-IsLoggedOut id s t true e h c = record {
    events = ap (λ es. deletes id ∷ es) h;
    answer = inl (e, refl);
  }
  closing-IsLoggedOut id s t false e h c = record {
    events = ap (λ es. deletes id ∷ es) h;
    answer = inr (e, refl, ap (λ cs. cleared session_cookie_name ∷ cs) c);
  }

  abbrev shut : String → Action Response
  shut id = ignoring (delete out id) >>= λ _. closing (ltb (size id) 8)

  shut-IsLoggedOut :
      (id : String) (s : State) (r : Result Bool × State)
      → Passes (told url (row out id s) (selects id ∷ s.events)) s r
      → IsLoggedOut out url id s (resume_with (λ _. shut id) r.0 r.1)
  unfolding ◌>>=◌ resume_with
  shut-IsLoggedOut id s (r, t) p =
      subst (λ o. IsLoggedOut out url id s (resume_with (λ _. shut id) o t)) (sym p.returned)
        (subst
          (λ o. IsLoggedOut out url id s (resume_with (λ _. closing (ltb (size id) 8)) o.0 o.1))
          (sym (ignoring-delete out id t))
          (closing-IsLoggedOut id s t (ltb (size id) 8) refl p.told_so p.same))

  logged_out :
      (id : String) (s : State) (b : Bool)
      → (id == "") ≡ b
      → b ≡ false
      → IsLoggedOut out url id s (
          (if b
              then pure (redirects "/")
              else found out secure url id >>= λ sess.
                  when_some sess (revoke out secure url) (pure true) >>= λ _. shut id)
            s)
  unfolding ◌>>=◌ resume_with
  logged_out id s true h e = cc
  logged_out id s false h e =
      subst
        (λ o. IsLoggedOut out url id s (
          resume_with (λ sess. when_some sess (revoke out secure url) (pure true) >>= λ _. shut id)
            o.0 o.1))
        (sym (found_lem out secure url id s))
        (let p = revoke-Passes (row out id s) (event (selects id) s) in
          shut-IsLoggedOut id s _
            (record { returned = p.returned; told_so = p.told_so; same = p.same }))

  -- A logout with a session cookie looks the session up, asks the provider to revoke the access token
  -- of a row that it found, where there is an address for that, and issues the statement that deletes
  -- the row, also where the lookup, the provider or that statement fails. It then redirects and clears
  -- the cookie, or panics where the identifier in the cookie has less than eight characters.
  pub logout_handler-IsLoggedOut :
      (req : Request) (s : State)
      → (req.cookie session_cookie_name == "") ≡ false
      → IsLoggedOut out url (req.cookie session_cookie_name) s (logout_handler out secure url req s)
  unfolding logout_handler log_id
  logout_handler-IsLoggedOut req s h =
      let id = req.cookie session_cookie_name in logged_out id s (id == "") refl h

-- ===== src/Redis/Listing.antt =====
-- What the list of active sessions holds.
use Prim.Native.String.{◌++◌}
use smallworld_be.Prelude.{
  String, Bool, ◌≡◌, ◌≢◌, refl, sym, subst, ◌∙◌, inl, inr, true, false, Option, none, some, List,
  [], ◌∷◌, arith, if◌then◌else◌,
}
use smallworld_be.Prelude.Lists.{Among}
use smallworld_be.Domain.Models.{DriverSession}
use smallworld_be.Domain.Errors.{Error, Result, ok, err, Result-cases}
use smallworld_be.Domain.Policies.{is_active_or_full}
use smallworld_be.Redis.{Command, get, scan, Behaves, is_plain, or_default}
use smallworld_be.Redis.Presence.{
  read_on, DriverPresenceStore, driver_key, decode, cons_if, read_sessions, list_active_sessions,
}

decode-eq-ok :
    (s : DriverPresenceStore) (r : Result String) (y : DriverSession)
    → decode s r ≡ ok y
    → (v : String) × (r ≡ ok v) × (s.unmarshal v ≡ ok y)
decode-eq-ok s (err e) y h = cc
decode-eq-ok s (ok v) y h = (v, refl, ground arith)

cons_if-eq-ok :
    (t : Bool) (y : DriverSession) (r : Result (List DriverSession)) (xs : List DriverSession)
    → cons_if t y r ≡ ok xs
    → (ys : List DriverSession) × (r ≡ ok ys) × ((if t then y ∷ ys else ys) ≡ xs)
cons_if-eq-ok t y (err e) xs h = cc
cons_if-eq-ok t y (ok ys) xs h = (ys, refl, ground arith)

later_one :
    (t : Bool) (x y : DriverSession) (ys : List DriverSession)
    → Among x ys
    → Among x (if t then y ∷ ys else ys)
later_one true x y ys m = inr m
later_one false x y ys m = m

none-ne-some : {v : String} → none ≢ some v
none-ne-some h = cc

-- A listing that succeeds has seen the end of the scan.
scan-ok :
    (s : DriverPresenceStore) (f : Option Error) (ks : List String) (log : List Command)
    (xs : List DriverSession)
    → (read_sessions s f ks log).0 ≡ ok xs
    → f ≡ none
unfolding read_sessions
scan-ok s none [] log xs r = refl
scan-ok s (some e) [] log xs r = cc
scan-ok s f (k ∷ ks) log xs r = elim (Result-cases (decode s (s.client.value log k))) [
  | inl (y, e) ↦
      let (ys, ry, yx) = cons_if-eq-ok _ y _ xs (
        subst (λ d. (read_on d (read_sessions s f ks (get k ∷ log)) (get k ∷ log)).0 ≡ ok xs) e
          r) in
      scan-ok s f ks (get k ∷ log) ys ry
  | inr (y, e) ↦ absurd (cc)
]

module _ (s : DriverPresenceStore) (content : List Command → String → Option String)
    (b : Behaves s.client content) where
  -- A key that a read does not find any more stays away.
  gone-get :
      (log : List Command) (j k : String) → content log k ≡ none → content (get j ∷ log) k ≡ none
  gone-get log j k h = elim (b.keep log (get j) k (λ w. w)) [ inl e ↦ e ∙ h | inr e ↦ e ]

  gone-read :
      (f : Option Error) (ks : List String) (log : List Command) (k : String)
      → content log k ≡ none
      → content (read_sessions s f ks log).1 k ≡ none
  unfolding read_sessions
  gone-read f [] log k h = h
  gone-read f (j ∷ ks) log k h = elim (Result-cases (decode s (s.client.value log j))) [
    | inl (x, e) ↦ rw e (gone-read f ks (get j ∷ log) k (gone-get log j k h))
    | inr (x, e) ↦ rw e (gone-get log j k h)
  ]

  -- A session whose key is among those read, and is still there at the end, is among those found.
  found-read :
      (f : Option Error) (ks : List String) (log : List Command) (k v : String) (x : DriverSession)
      (xs : List DriverSession)
      → (read_sessions s f ks log).0 ≡ ok xs
      → Among k ks
      → content log k ≡ some v
      → s.unmarshal v ≡ ok x
      → is_active_or_full x.state ≡ true
      → content (read_sessions s f ks log).1 k ≢ none
      → Among x xs
  unfolding read_sessions
  found-read f [] log k v x xs r m c u a n = absurd m
  found-read f (j ∷ ks) log k v x xs r m c u a n =
      elim (Result-cases (decode s (s.client.value log j))) [
        | inl (y, e) ↦
            let (ys, ry, yx) = cons_if-eq-ok _ y _ xs (
              subst (λ d. (read_on d (read_sessions s f ks (get j ∷ log)) (get j ∷ log)).0 ≡ ok xs)
                e r) in
            let n' =
              subst
                (λ d.
                  content (read_on d (read_sessions s f ks (get j ∷ log)) (get j ∷ log)).1 k ≢ none)
                e n in
            subst (Among x) yx (elim m [
              | inl kj ↦
                  let (w, rw', uw) = decode-eq-ok s _ y e in
                  let cw = b.get_lem log j w rw' in
                  let yy : x ≡ y = cc in
                  subst (λ z. Among x (if is_active_or_full z.state then z ∷ ys else ys)) yy
                    (rw a (inl refl))
              | inr mk ↦
                  later_one (is_active_or_full y.state) x y ys
                    (elim (b.keep log (get j) k (λ w. w)) [
                      | inl same ↦ found-read f ks (get j ∷ log) k v x ys ry mk (same ∙ c) u a n'
                      | inr gone ↦ absurd (n' (gone-read f ks (get j ∷ log) k gone))
                    ])
            ])
        | inr (y, e) ↦ absurd (cc)
      ]

  -- A listing that succeeds finds each active or full session whose key is there, with the session
  -- as its value, until the listing is over.
  pub found-list_active_sessions :
      (log : List Command) (id v : String) (x : DriverSession) (xs : List DriverSession)
      → is_plain (or_default s.key_prefix "smallworld:driver_session:") ≡ true
      → (list_active_sessions s log).0 ≡ ok xs
      → content log (driver_key s id) ≡ some v
      → s.unmarshal v ≡ ok x
      → is_active_or_full x.state ≡ true
      → content (list_active_sessions s log).1 (driver_key s id) ≢ none
      → Among x xs
  unfolding list_active_sessions driver_key
  found-list_active_sessions log id v x xs p r c u a n =
      let prefix = or_default s.key_prefix "smallworld:driver_session:" in
      let keys = s.client.keys log (prefix ++ "*") in
      let log' = scan (prefix ++ "*") ∷ log in
      let whole = scan-ok s (s.client.failure log (scan (prefix ++ "*"))) keys log' xs r in
      elim (b.scan_lem log prefix id p whole (λ z. none-ne-some (sym z ∙ c))) [
        | inl m ↦ elim (b.keep log (scan (prefix ++ "*")) (prefix ++ id) (λ w. w)) [
          | inl same ↦ found-read _ keys log' (prefix ++ id) v x xs r m (same ∙ c) u a n
          | inr gone ↦ absurd (n (gone-read _ keys log' (prefix ++ id) gone))
        ]
        | inr gone ↦ absurd (n (gone-read _ keys log' (prefix ++ id) gone))
      ]

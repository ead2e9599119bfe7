-- ===== src/Http/Fields/Names.antt =====
-- The look-up of a header name finds the field whose name agrees with it in length and in its first
-- and last eight bytes, without regard to the case bit.
use cornet.Base.{
  ℕ, ◌≤◌, ◌≡◌, ◌≢◌, ◌↔◌, ◌⊎◌, inl, inr, refl, sym, ap, ◌∙◌, Bool, true, false, if◌then◌else◌,
  if-elim, ◌==◌, ==_iff, List, length, take, map, codes, All, IsByte, arith,
}
use cornet.Http.Fields.{
  Field, host, content_length, content_type, transfer_encoding, connection, accept, accept_encoding,
  accept_language, user_agent, expect, upgrade, date, server, location, cookie, set_cookie,
  authorization, referer, range, if_none_match, if_modified_since, etag, cache_control, origin,
  other, field_name, m_short, m8, ld, pack, pack_loop, field_from_name, names_4, names_5, names_6,
  names_7, names_8, names_10, names_12, names_13, names_14, names_15, names_17,
}
use cornet.Http.Fields.Words.{lower, SameKey, m_short-SameKey, m8-SameKey}

bool_ext : (a b : Bool) → ((a ≡ true) ↔ (b ≡ true)) → a ≡ b
bool_ext true b e = sym (e.0 refl)
bool_ext false true e = e.1 refl
bool_ext false false e = refl

if_cong :
    (b : Bool) {f g x y : Field}
    → (b ≡ true → f ≡ g)
    → x ≡ y
    → (if b then f else x) ≡ (if b then g else y)
if_cong true h e = h refl
if_cong false h e = e

SameKey-sym : {p q : List ℕ} → SameKey p q → SameKey q p
SameKey-sym k = record {
  same_length = sym k.same_length;
  same_first = sym k.same_first;
  same_last = sym k.same_last;
}

SameKey-trans : {p q r : List ℕ} → SameKey p q → SameKey q r → SameKey p r
SameKey-trans k j = record {
  same_length = k.same_length ∙ j.same_length;
  same_first = k.same_first ∙ j.same_first;
  same_last = k.same_last ∙ j.same_last;
}

-- The literals of the tests are the names in small letters.
abbrev Renders : List ℕ → Field → Type 0
Renders lit f =
    (length lit ≡ length (field_name f))
    × (map lower lit ≡ map lower (field_name f))
    × All IsByte lit

Renders-SameKey : (lit : List ℕ) (f : Field) → Renders lit f → SameKey lit (field_name f)
Renders-SameKey lit f (l, e, b) = record {
  same_length = l;
  same_first = ap (take 8) e;
  same_last = rw (l, e) refl;
}

abbrev Sound : List ℕ → Field → Type 0
Sound p g = (g ≡ other) ⊎ SameKey p (field_name g)

pick-Sound :
    (p : List ℕ) (b : Bool) (f rest : Field)
    → (b ≡ true → SameKey p (field_name f))
    → Sound p rest
    → Sound p (if b then f else rest)
pick-Sound p true f rest h s = inr (h refl)
pick-Sound p false f rest h s = s

-- One test, at a name of the length at hand.
module _ (n : ℕ) (p : List ℕ) (lp : length p ≡ n) (hp : All IsByte p) where
  short_test :
      (lit : List ℕ) (f : Field)
      → n ≤ 8
      → length lit ≡ n
      → Renders lit f
      → m_short n p lit ≡ true
      → SameKey p (field_name f)
  short_test lit f small l r e =
      SameKey-trans ((m_short-SameKey n p lit small lp l hp r.2).0 e) (Renders-SameKey lit f r)

  long_test :
      (lit : List ℕ) (f : Field)
      → 8 ≤ n
      → length lit ≡ n
      → Renders lit f
      → m8 p lit n ≡ true
      → SameKey p (field_name f)
  long_test lit f big l r e =
      SameKey-trans ((m8-SameKey n p lit big lp l hp r.2).0 e) (Renders-SameKey lit f r)

  module _ (q : List ℕ) (hq : All IsByte q) (k : SameKey p q) where
    short_same :
        (lit : List ℕ) → n ≤ 8 → length lit ≡ n → All IsByte lit → m_short n p lit ≡ m_short n q lit
    short_same lit small l hl =
        let first = m_short-SameKey n p lit small lp l hp hl in
        let second = m_short-SameKey n q lit small (sym k.same_length ∙ lp) l hq hl in
        bool_ext _ _ (
          (λ e. second.1 (SameKey-trans (SameKey-sym k) (first.0 e))),
          λ e. first.1 (SameKey-trans k (second.0 e)),
        )

    long_same : (lit : List ℕ) → 8 ≤ n → length lit ≡ n → All IsByte lit → m8 p lit n ≡ m8 q lit n
    long_same lit big l hl =
        let first = m8-SameKey n p lit big lp l hp hl in
        let second = m8-SameKey n q lit big (sym k.same_length ∙ lp) l hq hl in
        bool_ext _ _ (
          (λ e. second.1 (SameKey-trans (SameKey-sym k) (first.0 e))),
          λ e. first.1 (SameKey-trans k (second.0 e)),
        )

-- The cases of the switch.
module _ (p : List ℕ) (hp : All IsByte p) where
  names_4-Sound : length p ≡ 4 → Sound p (names_4 p)
  unfolding names_4 field_name
  names_4-Sound l =
      pick-Sound p _ host _
        (short_test 4 p l hp (codes "host") host (omega arith) refl (refl, refl, omega arith))
        (pick-Sound p _ date _
          (short_test 4 p l hp (codes "date") date (omega arith) refl (refl, refl, omega arith))
          (pick-Sound p _ etag _
            (short_test 4 p l hp (codes "etag") etag (omega arith) refl (refl, refl, omega arith))
            (inl refl)))

  names_5-Sound : length p ≡ 5 → Sound p (names_5 p)
  unfolding names_5 field_name
  names_5-Sound l =
      pick-Sound p _ range _
        (short_test 5 p l hp (codes "range") range (omega arith) refl (refl, refl, omega arith))
        (inl refl)

  names_6-Sound : length p ≡ 6 → Sound p (names_6 p)
  unfolding names_6 field_name
  names_6-Sound l =
      pick-Sound p _ accept _
        (short_test 6 p l hp (codes "accept") accept (omega arith) refl (refl, refl, omega arith))
        (pick-Sound p _ expect _
          (short_test 6 p l hp (codes "expect") expect (omega arith) refl (refl, refl, omega arith))
          (pick-Sound p _ server _
            (short_test 6 p l hp (codes "server") server (omega arith) refl
              (refl, refl, omega arith))
            (pick-Sound p _ cookie _
              (short_test 6 p l hp (codes "cookie") cookie (omega arith) refl
                (refl, refl, omega arith))
              (pick-Sound p _ origin _
                (short_test 6 p l hp (codes "origin") origin (omega arith) refl
                  (refl, refl, omega arith))
                (inl refl)))))

  names_7-Sound : length p ≡ 7 → Sound p (names_7 p)
  unfolding names_7 field_name
  names_7-Sound l =
      pick-Sound p _ upgrade _
        (short_test 7 p l hp (codes "upgrade") upgrade (omega arith) refl (refl, refl, omega arith))
        (pick-Sound p _ referer _
          (short_test 7 p l hp (codes "referer") referer (omega arith) refl
            (refl, refl, omega arith))
          (inl refl))

  names_8-Sound : length p ≡ 8 → Sound p (names_8 p)
  unfolding names_8 field_name
  names_8-Sound l =
      pick-Sound p _ location _
        (short_test 8 p l hp (codes "location") location (omega arith) refl
          (refl, refl, omega arith))
        (inl refl)

  names_10-Sound : length p ≡ 10 → Sound p (names_10 p)
  unfolding names_10 field_name
  names_10-Sound l =
      pick-Sound p _ connection _
        (long_test 10 p l hp (codes "connection") connection (omega arith) refl
          (refl, refl, omega arith))
        (pick-Sound p _ user_agent _
          (long_test 10 p l hp (codes "user-agent") user_agent (omega arith) refl
            (refl, refl, omega arith))
          (pick-Sound p _ set_cookie _
            (long_test 10 p l hp (codes "set-cookie") set_cookie (omega arith) refl
              (refl, refl, omega arith))
            (inl refl)))

  names_12-Sound : length p ≡ 12 → Sound p (names_12 p)
  unfolding names_12 field_name
  names_12-Sound l =
      pick-Sound p _ content_type _
        (long_test 12 p l hp (codes "content-type") content_type (omega arith) refl
          (refl, refl, omega arith))
        (inl refl)

  names_13-Sound : length p ≡ 13 → Sound p (names_13 p)
  unfolding names_13 field_name
  names_13-Sound l =
      pick-Sound p _ authorization _
        (long_test 13 p l hp (codes "authorization") authorization (omega arith) refl
          (refl, refl, omega arith))
        (pick-Sound p _ if_none_match _
          (long_test 13 p l hp (codes "if-none-match") if_none_match (omega arith) refl
            (refl, refl, omega arith))
          (pick-Sound p _ cache_control _
            (long_test 13 p l hp (codes "cache-control") cache_control (omega arith) refl
              (refl, refl, omega arith))
            (inl refl)))

  names_14-Sound : length p ≡ 14 → Sound p (names_14 p)
  unfolding names_14 field_name
  names_14-Sound l =
      pick-Sound p _ content_length _
        (long_test 14 p l hp (codes "content-length") content_length (omega arith) refl
          (refl, refl, omega arith))
        (inl refl)

  names_15-Sound : length p ≡ 15 → Sound p (names_15 p)
  unfolding names_15 field_name
  names_15-Sound l =
      pick-Sound p _ accept_encoding _
        (long_test 15 p l hp (codes "accept-encoding") accept_encoding (omega arith) refl
          (refl, refl, omega arith))
        (pick-Sound p _ accept_language _
          (long_test 15 p l hp (codes "accept-language") accept_language (omega arith) refl
            (refl, refl, omega arith))
          (inl refl))

  names_17-Sound : length p ≡ 17 → Sound p (names_17 p)
  unfolding names_17 field_name
  names_17-Sound l =
      pick-Sound p _ transfer_encoding _
        (long_test 17 p l hp (codes "transfer-encoding") transfer_encoding (omega arith) refl
          (refl, refl, omega arith))
        (pick-Sound p _ if_modified_since _
          (long_test 17 p l hp (codes "if-modified-since") if_modified_since (omega arith) refl
            (refl, refl, omega arith))
          (inl refl))

  module _ (q : List ℕ) (hq : All IsByte q) (k : SameKey p q) where
    names_4-same : length p ≡ 4 → names_4 p ≡ names_4 q
    unfolding names_4
    names_4-same l =
        rw
          (
            short_same 4 p l hp q hq k (codes "host") (omega arith) refl (omega arith),
            short_same 4 p l hp q hq k (codes "date") (omega arith) refl (omega arith),
            short_same 4 p l hp q hq k (codes "etag") (omega arith) refl (omega arith),
          )
          refl

    names_5-same : length p ≡ 5 → names_5 p ≡ names_5 q
    unfolding names_5
    names_5-same l =
        rw (short_same 5 p l hp q hq k (codes "range") (omega arith) refl (omega arith)) refl

    names_6-same : length p ≡ 6 → names_6 p ≡ names_6 q
    unfolding names_6
    names_6-same l =
        rw
          (
            short_same 6 p l hp q hq k (codes "accept") (omega arith) refl (omega arith),
            short_same 6 p l hp q hq k (codes "expect") (omega arith) refl (omega arith),
            short_same 6 p l hp q hq k (codes "server") (omega arith) refl (omega arith),
            short_same 6 p l hp q hq k (codes "cookie") (omega arith) refl (omega arith),
            short_same 6 p l hp q hq k (codes "origin") (omega arith) refl (omega arith),
          )
          refl

    names_7-same : length p ≡ 7 → names_7 p ≡ names_7 q
    unfolding names_7
    names_7-same l =
        rw
          (
            short_same 7 p l hp q hq k (codes "upgrade") (omega arith) refl (omega arith),
            short_same 7 p l hp q hq k (codes "referer") (omega arith) refl (omega arith),
          )
          refl

    names_8-same : length p ≡ 8 → names_8 p ≡ names_8 q
    unfolding names_8
    names_8-same l =
        rw (short_same 8 p l hp q hq k (codes "location") (omega arith) refl (omega arith)) refl

    names_10-same : length p ≡ 10 → names_10 p ≡ names_10 q
    unfolding names_10
    names_10-same l =
        rw
          (
            long_same 10 p l hp q hq k (codes "connection") (omega arith) refl (omega arith),
            long_same 10 p l hp q hq k (codes "user-agent") (omega arith) refl (omega arith),
            long_same 10 p l hp q hq k (codes "set-cookie") (omega arith) refl (omega arith),
          )
          refl

    names_12-same : length p ≡ 12 → names_12 p ≡ names_12 q
    unfolding names_12
    names_12-same l =
        rw (long_same 12 p l hp q hq k (codes "content-type") (omega arith) refl (omega arith)) refl

    names_13-same : length p ≡ 13 → names_13 p ≡ names_13 q
    unfolding names_13
    names_13-same l =
        rw
          (
            long_same 13 p l hp q hq k (codes "authorization") (omega arith) refl (omega arith),
            long_same 13 p l hp q hq k (codes "if-none-match") (omega arith) refl (omega arith),
            long_same 13 p l hp q hq k (codes "cache-control") (omega arith) refl (omega arith),
          )
          refl

    names_14-same : length p ≡ 14 → names_14 p ≡ names_14 q
    unfolding names_14
    names_14-same l =
        rw (long_same 14 p l hp q hq k (codes "content-length") (omega arith) refl (omega arith))
          refl

    names_15-same : length p ≡ 15 → names_15 p ≡ names_15 q
    unfolding names_15
    names_15-same l =
        rw
          (
            long_same 15 p l hp q hq k (codes "accept-encoding") (omega arith) refl (omega arith),
            long_same 15 p l hp q hq k (codes "accept-language") (omega arith) refl (omega arith),
          )
          refl

    names_17-same : length p ≡ 17 → names_17 p ≡ names_17 q
    unfolding names_17
    names_17-same l =
        rw
          (
            long_same 17 p l hp q hq k (codes "transfer-encoding") (omega arith) refl (omega arith),
            long_same 17 p l hp q hq k (codes "if-modified-since") (omega arith) refl (omega arith),
          )
          refl

    pub field_from_name-same : field_from_name p ≡ field_from_name q
    unfolding field_from_name
    field_from_name-same = rw (sym k.same_length) (
        if_cong (length p == 4) (λ e. names_4-same ((==_iff _ _).0 e))
          (if_cong (length p == 5) (λ e. names_5-same ((==_iff _ _).0 e))
            (if_cong (length p == 6) (λ e. names_6-same ((==_iff _ _).0 e))
              (if_cong (length p == 7) (λ e. names_7-same ((==_iff _ _).0 e))
                (if_cong (length p == 8) (λ e. names_8-same ((==_iff _ _).0 e))
                  (if_cong (length p == 10) (λ e. names_10-same ((==_iff _ _).0 e))
                    (if_cong (length p == 12) (λ e. names_12-same ((==_iff _ _).0 e))
                      (if_cong (length p == 13) (λ e. names_13-same ((==_iff _ _).0 e))
                        (if_cong (length p == 14) (λ e. names_14-same ((==_iff _ _).0 e))
                          (if_cong (length p == 15) (λ e. names_15-same ((==_iff _ _).0 e))
                            (if_cong (length p == 17) (λ e. names_17-same ((==_iff _ _).0 e))
                              refl)))))))))))

  field_from_name-Sound : Sound p (field_from_name p)
  unfolding field_from_name
  field_from_name-Sound =
      if-elim (Sound p) (length p == 4) _ _ (λ e. names_4-Sound ((==_iff _ _).0 e))
        (λ e.
          if-elim (Sound p) (length p == 5) _ _ (λ e. names_5-Sound ((==_iff _ _).0 e))
            (λ e.
              if-elim (Sound p) (length p == 6) _ _ (λ e. names_6-Sound ((==_iff _ _).0 e))
                (λ e.
                  if-elim (Sound p) (length p == 7) _ _ (λ e. names_7-Sound ((==_iff _ _).0 e))
                    (λ e.
                      if-elim (Sound p) (length p == 8) _ _ (λ e. names_8-Sound ((==_iff _ _).0 e))
                        (λ e.
                          if-elim (Sound p) (length p == 10) _ _
                            (λ e. names_10-Sound ((==_iff _ _).0 e))
                            (λ e.
                              if-elim (Sound p) (length p == 12) _ _
                                (λ e. names_12-Sound ((==_iff _ _).0 e))
                                (λ e.
                                  if-elim (Sound p) (length p == 13) _ _
                                    (λ e. names_13-Sound ((==_iff _ _).0 e))
                                    (λ e.
                                      if-elim (Sound p) (length p == 14) _ _
                                        (λ e. names_14-Sound ((==_iff _ _).0 e))
                                        (λ e.
                                          if-elim (Sound p) (length p == 15) _ _
                                            (λ e. names_15-Sound ((==_iff _ _).0 e))
                                            (λ e.
                                              if-elim (Sound p) (length p == 17) _ _
                                                (λ e. names_17-Sound ((==_iff _ _).0 e))
                                                (λ e. inl refl)))))))))))

field_name-IsByte : (f : Field) → All IsByte (field_name f)
unfolding field_name
field_name-IsByte host = omega arith
field_name-IsByte content_length = omega arith
field_name-IsByte content_type = omega arith
field_name-IsByte transfer_encoding = omega arith
field_name-IsByte connection = omega arith
field_name-IsByte accept = omega arith
field_name-IsByte accept_encoding = omega arith
field_name-IsByte accept_language = omega arith
field_name-IsByte user_agent = omega arith
field_name-IsByte expect = omega arith
field_name-IsByte upgrade = omega arith
field_name-IsByte date = omega arith
field_name-IsByte server = omega arith
field_name-IsByte location = omega arith
field_name-IsByte cookie = omega arith
field_name-IsByte set_cookie = omega arith
field_name-IsByte authorization = omega arith
field_name-IsByte referer = omega arith
field_name-IsByte range = omega arith
field_name-IsByte if_none_match = omega arith
field_name-IsByte if_modified_since = omega arith
field_name-IsByte etag = omega arith
field_name-IsByte cache_control = omega arith
field_name-IsByte origin = omega arith
field_name-IsByte other = omega arith

pub field_from_name-field_name : (f : Field) → field_from_name (field_name f) ≡ f
unfolding field_from_name field_name m_short m8 ld pack pack_loop names_4 names_5 names_6 names_7
    names_8 names_10 names_12 names_13 names_14 names_15 names_17
field_from_name-field_name host = refl
field_from_name-field_name content_length = refl
field_from_name-field_name content_type = refl
field_from_name-field_name transfer_encoding = refl
field_from_name-field_name connection = refl
field_from_name-field_name accept = refl
field_from_name-field_name accept_encoding = refl
field_from_name-field_name accept_language = refl
field_from_name-field_name user_agent = refl
field_from_name-field_name expect = refl
field_from_name-field_name upgrade = refl
field_from_name-field_name date = refl
field_from_name-field_name server = refl
field_from_name-field_name location = refl
field_from_name-field_name cookie = refl
field_from_name-field_name set_cookie = refl
field_from_name-field_name authorization = refl
field_from_name-field_name referer = refl
field_from_name-field_name range = refl
field_from_name-field_name if_none_match = refl
field_from_name-field_name if_modified_since = refl
field_from_name-field_name etag = refl
field_from_name-field_name cache_control = refl
field_from_name-field_name origin = refl
field_from_name-field_name other = refl

-- A name of bytes is found to be a field other than `other` just where it agrees with the field's name
-- in length and, without the case bit, in its first eight and its last eight bytes.
pub field_from_name_iff :
    (p : List ℕ) (f : Field)
    → All IsByte p
    → f ≢ other
    → (field_from_name p ≡ f) ↔ SameKey p (field_name f)
field_from_name_iff p f hp proper = (
  (λ e. elim (field_from_name-Sound p hp) [
    | inl o ↦ absurd (proper (sym e ∙ o))
    | inr k ↦ rw e at k
  ]),
  λ k.
      field_from_name-same p hp (field_name f) (field_name-IsByte f) k
      ∙ field_from_name-field_name f,
)

pub field_name_short : (f : Field) → length (field_name f) ≤ 17
unfolding field_name
field_name_short host = omega arith
field_name_short content_length = omega arith
field_name_short content_type = omega arith
field_name_short transfer_encoding = omega arith
field_name_short connection = omega arith
field_name_short accept = omega arith
field_name_short accept_encoding = omega arith
field_name_short accept_language = omega arith
field_name_short user_agent = omega arith
field_name_short expect = omega arith
field_name_short upgrade = omega arith
field_name_short date = omega arith
field_name_short server = omega arith
field_name_short location = omega arith
field_name_short cookie = omega arith
field_name_short set_cookie = omega arith
field_name_short authorization = omega arith
field_name_short referer = omega arith
field_name_short range = omega arith
field_name_short if_none_match = omega arith
field_name_short if_modified_since = omega arith
field_name_short etag = omega arith
field_name_short cache_control = omega arith
field_name_short origin = omega arith
field_name_short other = omega arith

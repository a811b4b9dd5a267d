-- ===== src/Proto/Stream/Steps.antt =====
-- What is known of the steps of a talk that succeeds, or that another step follows.
use squish.Proto.Stream.{FramedBiStream, Talk, continue_with, ◌>>=◌, next_of, recv, send, lift}
use squish.Prelude.{◌≡◌, refl, List, [], ◌∷◌, ◌++◌, Bool, Result, ok, err, ap}

module _ {M E A B : Type 0} where
  continue_with-eq-ok :
      (f : A → Talk M E B) (x : FramedBiStream M × Result E A) {t : FramedBiStream M} {b : B}
      → continue_with f x ≡ (t, ok b)
      → (s : FramedBiStream M) × (a : A) × (x ≡ (s, ok a)) × (f a s ≡ (t, ok b))
  continue_with-eq-ok f (s, ok a) h = (s, a, refl, h)
  continue_with-eq-ok f (s, err e) h = cc

  -- Both parts of a talk that succeeds have succeeded.
  pub >>=-eq-ok :
      (m : Talk M E A) (f : A → Talk M E B) (s : FramedBiStream M) {t : FramedBiStream M} {b : B}
      → (m >>= f) s ≡ (t, ok b)
      → (s' : FramedBiStream M) × (a : A) × (m s ≡ (s', ok a)) × (f a s' ≡ (t, ok b))
  >>=-eq-ok m f s h = continue_with-eq-ok f (m s) h

module _ {M E A : Type 0} where
  -- A talk whose result is known, as a pair.
  pub with_result : (x : FramedBiStream M × Result E A) {a : A} → x.1 ≡ ok a → x ≡ (x.0, ok a)
  with_result x h = ap (λ r. (x.0, r)) h

  pub lift-eq-ok :
      (r : Result E A) (s : FramedBiStream M) {t : FramedBiStream M} {a : A}
      → lift r s ≡ (t, ok a)
      → (t ≡ s) × (r ≡ ok a)
  lift-eq-ok r s h = (cc, cc)

module _ {M E : Type 0} where
  next_of-eq-ok :
      (s : FramedBiStream M) (e : E) (l : List M) {t : FramedBiStream M} {m : M}
      → next_of s e l ≡ (t, ok m)
      → (l ≡ m ∷ t.incoming) × (t.sent ≡ s.sent)
  next_of-eq-ok s e [] h = cc
  next_of-eq-ok s e (x ∷ l) {t} {m} h =
      let same : record s { incoming = l } ≡ t = cc in
      let head : x ≡ m = cc in rw (← same, head) (refl, refl)

  pub recv-eq-ok :
      (e : E) (s : FramedBiStream M) {t : FramedBiStream M} {m : M}
      → recv e s ≡ (t, ok m)
      → (s.incoming ≡ m ∷ t.incoming) × (t.sent ≡ s.sent)
  recv-eq-ok e s h = next_of-eq-ok s e s.incoming h

  pub send-eq-ok :
      (link : List M → Bool) (e : E) (m : M) (s : FramedBiStream M) {t : FramedBiStream M}
      → send link e m s ≡ (t, ok tt)
      → (t.incoming ≡ s.incoming) × (t.sent ≡ s.sent ++ m ∷ [])
  send-eq-ok link e m s {t} h =
      let same : record s { sent = s.sent ++ m ∷ [] } ≡ t = cc in rw (← same) (refl, refl)

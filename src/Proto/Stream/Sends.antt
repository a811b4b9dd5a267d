-- ===== src/Proto/Stream/Sends.antt =====
-- What a talk has sent when it succeeds, put together from its parts.
use squish.Proto.Stream.Steps.{recv-eq-ok, send-eq-ok}
use squish.Proto.Stream.{FramedBiStream, recv, Talk, ◌>>=◌, send, pure}
use squish.Proto.Stream.Steps
use squish.Prelude.{List, ◌≡◌, Bool, [], ok, ◌++◌, ◌∙◌, ◌∷◌, ap, sym, append-nil, append_assoc}

-- Each time the talk succeeds, it has sent these messages.
abbrev pub Sends : {M E A : Type 0} → Talk M E A → List M → Type 0
Sends {M} {E} {A} m l = (s t : FramedBiStream M) (a : A) → m s ≡ (t, ok a) → t.sent ≡ s.sent ++ l

module _ {M E A : Type 0} where
  pub >>=-Sends :
      {B : Type 0} (m : Talk M E A) (f : A → Talk M E B) (l k : List M)
      → Sends m l
      → ((a : A) → Sends (f a) k)
      → Sends (m >>= f) (l ++ k)
  >>=-Sends m f l k first then s t b h =
      let (s₁, a, e, h₁) = Steps.>>=-eq-ok m f s h in
      then a s₁ t b h₁ ∙ (ap (λ x. x ++ k) (first s s₁ a e) ∙ append_assoc s.sent l k)

  pub pure-Sends : (a : A) → Sends {M = M} {E = E} (pure a) []
  pure-Sends a s t b h = let same : s ≡ t = cc in rw (← same) (sym (append-nil s.sent))

module _ {M E : Type 0} where
  pub send-Sends :
      (link : List M → Bool) (e : E) (m : M) → Sends {A = Unit {0}} (send link e m) (m ∷ [])
  send-Sends link e m s t u h = (send-eq-ok link e m s h).1

  pub recv-Sends : (e : E) → Sends {M = M} {E = E} {A = M} (recv e) []
  recv-Sends e s t m h = (recv-eq-ok e s h).1 ∙ sym (append-nil s.sent)

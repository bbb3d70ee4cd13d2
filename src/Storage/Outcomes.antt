-- ===== src/Storage/Outcomes.antt =====
-- Outcomes taken apart: what a step that returned, or did not, came from.
use neo_post_graph.Common.{◌≡◌, refl, ◌⊎◌, inl, inr}
use neo_post_graph.Storage.{Error, Outcome, ok, err, hang, ◌>>=◌}

pub Outcome-cases :
    {A : Type 0} (m : Outcome A)
    → ((a : A) × (m ≡ ok a)) ⊎ (((e : Error) × (m ≡ err e)) ⊎ (m ≡ hang))
Outcome-cases (ok a) = inl (a, refl)
Outcome-cases (err e) = inr (inl (e, refl))
Outcome-cases hang = inr (inr refl)

pub bind_ok :
    {A B : Type 0} (m : Outcome A) (f : A → Outcome B) (b : B)
    → (m >>= f) ≡ ok b
    → (a : A) × (m ≡ ok a) × (f a ≡ ok b)
bind_ok (ok a) f b h = (a, refl, h)
bind_ok (err e) f b h = cc
bind_ok hang f b h = cc

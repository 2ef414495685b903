-- ===== src/Base/Options.antt =====
-- Where an optional result came from.
use mathlib.Core.Path.{◌≡◌, refl}
use mathlib.Core.Logic.{◌⊎◌, inl, inr}
use mathlib.Core.Option.{Option, none, some}
use kernel_lore_mcp.Base.Tests.{◌>>=◌, or_else}

pub bind-some :
    {A B : Type 0} (o : Option A) (f : A → Option B) (b : B)
    → (o >>= f) ≡ some b
    → (a : A) × (o ≡ some a) × (f a ≡ some b)
bind-some none f b h = absurd (cc)
bind-some (some a) f b h = (a, refl, h)

pub or_else-some :
    {A : Type 0} (a b : Option A) (v : A) → or_else a b ≡ some v → (a ≡ some v) ⊎ (b ≡ some v)
or_else-some none b v h = inr h
or_else-some (some x) b v h = inl h

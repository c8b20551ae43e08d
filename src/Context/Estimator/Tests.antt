-- ===== src/Context/Estimator/Tests.antt =====
-- The default estimate of two short texts.
use agent_studio.Base.{◌≡◌, refl, []}
use agent_studio.Base.Eq.{nat_eq, list_eq}
use agent_studio.Base.Text.{codes}
use agent_studio.Context.Estimator.{estimate}

five_letters : estimate [] (codes "openai") (codes "gpt") (codes "hello") ≡ 2
unfolding estimate
five_letters = refl

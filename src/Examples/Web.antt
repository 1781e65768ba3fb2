-- ===== src/Examples/Web.antt =====
-- Requests to the interface, with the right token and without.
use e_commerce_agent.Base.{◌≡◌, refl, arith, true, none, some}
use e_commerce_agent.Errors.{ok}
use e_commerce_agent.Platform.{Platform, confirmed}
use e_commerce_agent.World.{World}
use e_commerce_agent.Api.{Web}
use e_commerce_agent.Api.Auth.{IsAuthorized, partition}
use e_commerce_agent.Api.Schemas.{Response}
use e_commerce_agent.Api.Routes.{get_task, post_resume}
use e_commerce_agent.Api.Serve.{serve}
use e_commerce_agent.Api.Guards.{IsDenial, IsUntouched, serve-IsDenial}
use e_commerce_agent.Api.Foreign.{IsForbidden, serve-IsForbidden, resumes}
use e_commerce_agent.Api.Answers.{Served, serve_answers}
use e_commerce_agent.Examples.Setting.{platform, task, storing, world}

abbrev web : Web
web = record {
  demo_api_token = "secret";
  matches = λ pattern text. true;
  is_ascii = λ text. true;
  int = λ v. ok 1;
}

abbrev server : Platform
server = platform confirmed

-- The task of the merchant m1.
abbrev shop_world : World server
shop_world = world server (storing server task)

no_header : IsAuthorized server.lower web none → ⊥
unfolding partition
no_header a = let clash : "" ≡ "secret" = a.token in absurd (ground arith)

serve-IsDenial_example :
    (response : Response) × (w' : World server) × (serve server web none none
        (get_task "t1")
        shop_world
      ≡ (ok response, w'))
    × IsDenial server web response
    × IsUntouched server shop_world w'
serve-IsDenial_example =
    serve-IsDenial server web none none (get_task "t1") shop_world refl no_header

right_header : IsAuthorized server.lower web (some "bearer secret")
unfolding partition
right_header = record { set = refl; scheme = refl; token = refl; ascii = refl }

serve-IsForbidden_example :
    (response : Response) × (w' : World server) × (serve server web none
        (some "bearer secret")
        (post_resume "t1")
        shop_world
      ≡ (ok response, w'))
    × IsForbidden response
    × IsUntouched server shop_world w'
serve-IsForbidden_example =
    serve-IsForbidden server web none (some "bearer secret") (post_resume "t1") task "t1" shop_world
      right_header resumes refl refl

serve_answers_example :
    (response : Response) × (w' : World server) × (serve server web none
        (some "bearer secret")
        (get_task "t9")
        shop_world
      ≡ (ok response, w'))
    × Served server web (some "bearer secret") (get_task "t9") response shop_world w'
serve_answers_example =
    serve_answers server web none (some "bearer secret") (get_task "t9") shop_world

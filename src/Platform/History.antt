-- ===== src/Platform/History.antt =====
-- What every request keeps, every sequence of requests keeps.
use eu_saas.Prelude.{List, [], ◌∷◌}
use eu_saas.Container.{Container, World}
use eu_saas.Container.Follows.{Preorder, Follows}
use eu_saas.Platform.{Request, handle, serve}

pub serve-Follows :
    {R : Container → Container → Type 0} (w : World)
    → Preorder R
    → ((r : Request) → Follows R (handle w r))
    → (rs : List Request) (s : Container) → R s (serve w rs s)
unfolding serve
serve-Follows w p h [] s = p.reflexive s
serve-Follows w p h (r ∷ rs) s =
    let t = (handle w r s).1 in
    p.transitive s t (serve w rs t) ((h r).at s) (serve-Follows w p h rs t)

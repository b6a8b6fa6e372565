-- ===== src/Routes/Template.antt =====
-- internal/jobs/unit_urls.go: the choice of a route template at the end of selectRouteTemplate. The
-- templates come in the order of a Go map, which is any.
use shiori_server.Prelude.{
  ℕ, String, Bool, true, false, not, ◌&&◌, ◌||◌, Option, none, some, List, [], ◌∷◌, ltb, ◌==◌,
  if◌then◌else◌, str_eq,
}

pub record Template : Type 0 where
  pub prefix : String
  pub suffix : String
  pub score : ℕ
  pub count : ℕ

unfoldable pub is_better : Template → Template → Bool
is_better a b = ltb b.score a.score || (a.score == b.score && ltb b.count a.count)

unfoldable pub same_rank : Template → Template → Bool
same_rank a b = a.score == b.score && a.count == b.count

unfoldable pub same_route : Template → Template → Bool
same_route a b = str_eq a.prefix b.prefix && str_eq a.suffix b.suffix

-- One turn of the loop over the templates, with the best one so far and whether it is tied.
abbrev pub consider : Template → Option (Template × Bool) → Option (Template × Bool)
consider c none = some (c, false)
consider c (some (b, tied)) =
    if is_better c b
    then some (c, false)
    else if same_rank c b && not (same_route c b)
    then some (b, true)
    else some (b, tied)

unfoldable pub best_of : List Template → Option (Template × Bool) → Option (Template × Bool)
unfolding is_better same_rank same_route
best_of [] state = state
best_of (c ∷ cs) state = best_of cs (consider c state)

abbrev pub unless_tied : Option (Template × Bool) → Option Template
unless_tied none = none
unless_tied (some (b, true)) = none
unless_tied (some (b, false)) = some b

unfoldable pub select_template : List Template → Option Template
unfolding best_of
select_template cs = unless_tied (best_of cs none)

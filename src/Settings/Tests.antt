-- ===== src/Settings/Tests.antt =====
-- The settings of small environments.
use agentdesk_nestjs.Base.{◌≡◌, refl, [], ◌∷◌, units, List, Text, is_space, trim_start, trim_end}
use agentdesk_nestjs.Settings.{origins_of, split}
use agentdesk_nestjs.Settings.Origins.{join_commas, origins_of-join_commas}

reads_origins :
    origins_of (units " http://a , ,http://b,") ≡ units "http://a" ∷ units "http://b" ∷ []
unfolding origins_of split trim_start trim_end is_space
reads_origins = refl

abbrev two_origins : List Text
two_origins = units "a" ∷ units "b c" ∷ []

two_origins_are_read : origins_of (join_commas two_origins) ≡ two_origins
unfolding trim_start trim_end is_space
two_origins_are_read =
    origins_of-join_commas two_origins
      ((refl, refl, (refl, tt)), ((refl, refl, (refl, (refl, (refl, tt)))), tt))

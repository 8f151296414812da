-- ===== src/Domains/Tests.antt =====
-- The property of the signers at a concrete domain.
use sendry.Base.{◌≡◌, [], ◌∷◌, Text, codes, Dict}
use sendry.Domains.{get_signer}
use sendry.Domains.Parents.{domains_above, first_signer, get_signer-Nearest}

abbrev signers : Dict Text
signers = (codes "b.org", codes "key") ∷ []

get_signer-Nearest_example :
    get_signer signers (codes "m.a.b.org")
    ≡ first_signer signers (codes "m.a.b.org" ∷ domains_above (codes "m.a.b.org"))
get_signer-Nearest_example = get_signer-Nearest signers (codes "m.a.b.org")

-- ===== src/Docs/Ids/Examples.antt =====
-- Ids of two texts.
use re_boot.Base.{◌≡◌, codes, arith}
use re_boot.Docs.Ids.{convert_to_id}
use re_boot.Docs.Ids.Prefix.{starts_with, starts_with-convert_to_id}

starts_with-convert_to_id_example :
    starts_with (convert_to_id (codes "act_")) (convert_to_id (codes "act_chain"))
    ≡ starts_with (codes "act_") (codes "act_chain")
starts_with-convert_to_id_example =
    starts_with-convert_to_id (codes "act_") (codes "act_chain") (ground arith) (ground arith)

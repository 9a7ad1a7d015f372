-- ===== src/Hosts/Crontab.antt =====
-- src/host-ops/crontab.ts: the block of lines between two markers that vops owns in a crontab.
pub mod Blocks
use vops.Prelude.{
  String, Bool, true, false, not, ◌==◌, eqb, any, length, List, [], ◌∷◌, ◌++◌, if◌then◌else◌,
}
use vops.Hosts.Lines.{Line, File, codes, same_line, trim, to_lines, from_lines}

-- start
unfoldable pub block_start : Line → Line
block_start tag = codes "# vops:" ++ (tag ++ codes ":start")

-- end
unfoldable pub block_end : Line → Line
block_end tag = codes "# vops:" ++ (tag ++ codes ":end")

-- `inside` is inBlock at the head of the lines.
unfoldable pub strip_from : Bool → Line → List Line → List Line
strip_from inside tag [] = []
strip_from inside tag (l ∷ rest) =
    let within = strip_from true tag rest in
    let outside = strip_from false tag rest in
    if same_line (trim l) (block_start tag)
    then within
    else if same_line (trim l) (block_end tag)
    then outside
    else if inside
    then within
    else l ∷ outside

unfoldable pub strip_block : List Line → Line → List Line
unfolding strip_from
strip_block lines tag = strip_from false tag lines

unfoldable pub upsert_cron_block : File → Line → List Line → File
upsert_cron_block content tag body =
    from_lines
      (strip_block (to_lines content) tag ++ (block_start tag ∷ (body ++ block_end tag ∷ [])))

unfoldable pub remove_cron_block : File → Line → File × Bool
remove_cron_block content tag =
    let lines = to_lines content in
    let kept = strip_block lines tag in (from_lines kept, not (eqb (length kept) (length lines)))

unfoldable pub has_cron_block : File → Line → Bool
has_cron_block content tag = any (λ l. same_line (trim l) (block_start tag)) (to_lines content)

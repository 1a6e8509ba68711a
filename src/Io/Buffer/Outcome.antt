-- ===== src/Io/Buffer/Outcome.antt =====
-- src/config/chaos_io_config.c: what `chaos_io_config_parse_buffer` returns for a whole file.
use macstab_chaos_testing_li.Prelude.{ℕ, Bool, Bytes}
use macstab_chaos_testing_li.Common.RuleFile.{lines}
use macstab_chaos_testing_li.Common.RuleFile.Outcome.{Tells, parse_file-Tells}
use macstab_chaos_testing_li.Io.Rule.{Rule}
use macstab_chaos_testing_li.Io.Buffer.{io_grammar, parse_buffer}

-- Either every line of the buffer reads, and the result is the rules of its lines in file order
-- with their texts; or the result names the first line that does not, by its number and its
-- text, with the reason, and no rule of the file is kept.
pub parse_buffer-Tells :
    (strtoul : Bytes → ℕ × Bytes) (supported : Rule → Bool) (buffer : Bytes)
    → Tells
        (io_grammar strtoul supported)
        0
        0
        (lines buffer)
        (parse_buffer strtoul supported buffer)
unfolding parse_buffer
parse_buffer-Tells strtoul supported buffer = parse_file-Tells (io_grammar strtoul supported) buffer

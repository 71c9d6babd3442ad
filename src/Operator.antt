-- ===== src/Operator.antt =====
-- The typing rules of operators, operator/types.go. What the rules ask of the checker is its method
-- `Error`: a rule returns the errors that it reports, in order.
pub mod Binary
pub mod Compare
use minipy.Base.{List, Bool, true, false}
use minipy.Token.{TokenType, Pos}
use minipy.Token.Errors.{Code}
use minipy.Types.Defs.{Ty, list, set}

-- The messages, by what they are formatted with.
pub data Complaint : Type 0 where
  matrix_multiplication : Complaint
  unsupported_operands : TokenType → Ty → Ty → Complaint
  bad_operand : TokenType → Ty → Complaint
  not_requires_bool : Ty → Complaint
  ellipsis_operands : TokenType → Ty → Ty → Complaint
  reference_operands : TokenType → Ty → Ty → Complaint
  no_container : TokenType → Ty → Ty → Complaint
  not_comparable : TokenType → Ty → Ty → Complaint
  comparing_to_none : Complaint

pub record Report : Type 0 where
  pub pos : Pos
  pub code : Code
  pub complaint : Complaint

-- The type that a rule returns, and what it reports.
abbrev pub Checked : Type 0
Checked = Ty × List Report

abbrev pub is_list : Ty → Bool
is_list (list _) = true
is_list _ = false

abbrev pub is_set : Ty → Bool
is_set (set _) = true
is_set _ = false

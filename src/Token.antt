-- ===== src/Token.antt =====
-- token/token.go: token types, their spelling, keywords, positions and tokens.
pub mod Errors
pub mod Names
use minipy.Base.{
  ℕ, Bool, ◌&&◌, String, List, [], ◌∷◌, ltb, ◌==◌, if◌then◌else◌, Bytes, codes, bytes_eq,
}

-- `Type`. A constructor is the constant's name in lower case.
pub data TokenType : Type 0 where
  illegal eof newline indent dedent name int float string fstring bytes true_word false_word
        none_word :
      TokenType
  and or not_word if_word elif else_word while for in_word notin isnot break continue pass def
        return :
      TokenType
  class lambda global nonlocal yield try except finally raise with as_word import from is_word :
      TokenType
  del assert async await plus minus star doublestar slash doubleslash percent lshift rshift :
      TokenType
  amp pipe caret tilde at lt gt le ge eq ne assign pluseq minuseq stareq slasheq doubleslasheq :
      TokenType
  percenteq ampeq pipeeq careteq lshifteq rshifteq doublestareq walrus arrow lparen rparen :
      TokenType
  lbracket rbracket lbrace rbrace comma colon dot ellipsis semicolon : TokenType

-- The value of a constant: `iota` counts `keywordBeg` and `keywordEnd` too.
unfoldable pub ordinal : TokenType → ℕ
ordinal illegal = 0
ordinal eof = 1
ordinal newline = 2
ordinal indent = 3
ordinal dedent = 4
ordinal name = 5
ordinal int = 6
ordinal float = 7
ordinal string = 8
ordinal fstring = 9
ordinal bytes = 10
ordinal true_word = 12
ordinal false_word = 13
ordinal none_word = 14
ordinal and = 15
ordinal or = 16
ordinal not_word = 17
ordinal if_word = 18
ordinal elif = 19
ordinal else_word = 20
ordinal while = 21
ordinal for = 22
ordinal in_word = 23
ordinal notin = 24
ordinal isnot = 25
ordinal break = 26
ordinal continue = 27
ordinal pass = 28
ordinal def = 29
ordinal return = 30
ordinal class = 31
ordinal lambda = 32
ordinal global = 33
ordinal nonlocal = 34
ordinal yield = 35
ordinal try = 36
ordinal except = 37
ordinal finally = 38
ordinal raise = 39
ordinal with = 40
ordinal as_word = 41
ordinal import = 42
ordinal from = 43
ordinal is_word = 44
ordinal del = 45
ordinal assert = 46
ordinal async = 47
ordinal await = 48
ordinal plus = 50
ordinal minus = 51
ordinal star = 52
ordinal doublestar = 53
ordinal slash = 54
ordinal doubleslash = 55
ordinal percent = 56
ordinal lshift = 57
ordinal rshift = 58
ordinal amp = 59
ordinal pipe = 60
ordinal caret = 61
ordinal tilde = 62
ordinal at = 63
ordinal lt = 64
ordinal gt = 65
ordinal le = 66
ordinal ge = 67
ordinal eq = 68
ordinal ne = 69
ordinal assign = 70
ordinal pluseq = 71
ordinal minuseq = 72
ordinal stareq = 73
ordinal slasheq = 74
ordinal doubleslasheq = 75
ordinal percenteq = 76
ordinal ampeq = 77
ordinal pipeeq = 78
ordinal careteq = 79
ordinal lshifteq = 80
ordinal rshifteq = 81
ordinal doublestareq = 82
ordinal walrus = 83
ordinal arrow = 84
ordinal lparen = 85
ordinal rparen = 86
ordinal lbracket = 87
ordinal rbracket = 88
ordinal lbrace = 89
ordinal rbrace = 90
ordinal comma = 91
ordinal colon = 92
ordinal dot = 93
ordinal ellipsis = 94
ordinal semicolon = 95

abbrev pub keyword_beg : ℕ
keyword_beg = 11

abbrev pub keyword_end : ℕ
keyword_end = 49

-- The map `names`.
unfoldable pub spelling : TokenType → String
spelling illegal = "ILLEGAL"
spelling eof = "EOF"
spelling newline = "NEWLINE"
spelling indent = "INDENT"
spelling dedent = "DEDENT"
spelling name = "NAME"
spelling int = "INT"
spelling float = "FLOAT"
spelling string = "STRING"
spelling fstring = "FSTRING"
spelling bytes = "BYTES"
spelling true_word = "True"
spelling false_word = "False"
spelling none_word = "None"
spelling and = "and"
spelling or = "or"
spelling not_word = "not"
spelling if_word = "if"
spelling elif = "elif"
spelling else_word = "else"
spelling while = "while"
spelling for = "for"
spelling in_word = "in"
spelling notin = "not in"
spelling isnot = "is not"
spelling break = "break"
spelling continue = "continue"
spelling pass = "pass"
spelling def = "def"
spelling return = "return"
spelling class = "class"
spelling lambda = "lambda"
spelling global = "global"
spelling nonlocal = "nonlocal"
spelling yield = "yield"
spelling try = "try"
spelling except = "except"
spelling finally = "finally"
spelling raise = "raise"
spelling with = "with"
spelling as_word = "as"
spelling import = "import"
spelling from = "from"
spelling is_word = "is"
spelling del = "del"
spelling assert = "assert"
spelling async = "async"
spelling await = "await"
spelling plus = "+"
spelling minus = "-"
spelling star = "*"
spelling doublestar = "**"
spelling slash = "/"
spelling doubleslash = "//"
spelling percent = "%"
spelling lshift = "<<"
spelling rshift = ">>"
spelling amp = "&"
spelling pipe = "|"
spelling caret = "^"
spelling tilde = "~"
spelling at = "@"
spelling lt = "<"
spelling gt = ">"
spelling le = "<="
spelling ge = ">="
spelling eq = "=="
spelling ne = "!="
spelling assign = "="
spelling pluseq = "+="
spelling minuseq = "-="
spelling stareq = "*="
spelling slasheq = "/="
spelling doubleslasheq = "//="
spelling percenteq = "%="
spelling ampeq = "&="
spelling pipeeq = "|="
spelling careteq = "^="
spelling lshifteq = "<<="
spelling rshifteq = ">>="
spelling doublestareq = "**="
spelling walrus = ":="
spelling arrow = "->"
spelling lparen = "("
spelling rparen = ")"
spelling lbracket = "["
spelling rbracket = "]"
spelling lbrace = "{"
spelling rbrace = "}"
spelling comma = ","
spelling colon = ":"
spelling dot = "."
spelling ellipsis = "..."
spelling semicolon = ";"

-- `IsKeyword`.
unfoldable pub is_keyword : TokenType → Bool
unfolding ordinal
is_keyword t = ltb keyword_beg (ordinal t) && ltb (ordinal t) keyword_end

-- The keys of the map `keywords`, in the order of the loop that fills it.
abbrev pub keywords : List TokenType
keywords =
    true_word ∷ false_word ∷ none_word ∷ and ∷ or ∷ not_word ∷ if_word ∷ elif ∷ else_word ∷ while
    ∷ for ∷ in_word ∷ notin ∷ isnot ∷ break ∷ continue ∷ pass ∷ def ∷ return ∷ class ∷ lambda
    ∷ global ∷ nonlocal ∷ yield ∷ try ∷ except ∷ finally ∷ raise ∷ with ∷ as_word ∷ import ∷ from
    ∷ is_word ∷ del ∷ assert ∷ async ∷ await ∷ []

abbrev pub spelled : TokenType → Bytes
unfolding spelling
spelled t = codes (spelling t)

lookup_in : List TokenType → Bytes → TokenType
unfolding spelling bytes_eq
lookup_in [] ident = name
lookup_in (t ∷ ts) ident = if bytes_eq (spelled t) ident then t else lookup_in ts ident

-- `Lookup`.
unfoldable pub lookup : Bytes → TokenType
unfolding lookup_in
lookup = lookup_in keywords

-- `t == u` on token types.
unfoldable pub type_eq : TokenType → TokenType → Bool
unfolding ordinal
type_eq t u = ordinal t == ordinal u

pub record Pos : Type 0 where
  pub line : ℕ
  pub column : ℕ

pub record Token : Type 0 where
  pub type : TokenType
  pub literal : Bytes
  pub pos : Pos

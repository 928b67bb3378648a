-- ===== src/ConfigParser.antt =====
-- src/config_parser/config_parser.cpp over the ini parser that is copied into src/config_parser. The
-- ini parser is an argument: a file that cannot be loaded is none, and so is the NULL dictionary
-- that two of the functions pass on.
use libevrpc.Base.{Bool, Option, none, some}
use libevrpc.Base.Int.{ℤ}
use libevrpc.Base.Bytes.{Bytes}

-- iniparser_load, iniparser_getsecnkeys, iniparser_getint, iniparser_getdouble,
-- iniparser_getstring and iniparser_getboolean.
pub record Iniparser (Dictionary Double : Type 0) : Type 0 where
  pub load : Bytes → Option Dictionary
  pub getsecnkeys : Dictionary → Bytes → ℤ
  pub getint : Dictionary → Bytes → ℤ → ℤ
  pub getdouble : Dictionary → Bytes → Double → Double
  pub getstring : Option Dictionary → Bytes → Option Bytes → Option Bytes
  pub getboolean : Option Dictionary → Bytes → Bool → Bool

module _ {Dictionary Double : Type 0} (ini : Iniparser Dictionary Double) where
  pub record ConfigParser : Type 0 where
    pub ini_file : Bytes
    pub dict_ini : Option Dictionary

  unfoldable pub init_config_parser : Bytes → ConfigParser
  init_config_parser ini_file = record { ini_file = ini_file; dict_ini = ini.load ini_file }

  -- The instance is made for the first file that is asked for.
  unfoldable pub get_instance : Bytes → Option ConfigParser → ConfigParser
  get_instance ini_file none = init_config_parser ini_file
  get_instance ini_file (some instance') = instance'

  unfoldable pub get_sec_keys_num : Bytes → ℤ → ConfigParser → ℤ
  get_sec_keys_num sec_key default_val c = elim c.dict_ini [
    | none ↦ default_val
    | some dict ↦ ini.getsecnkeys dict sec_key
  ]

  unfoldable pub ini_get_int : Bytes → ℤ → ConfigParser → ℤ
  ini_get_int sec_key default_val c = elim c.dict_ini [
    | none ↦ default_val
    | some dict ↦ ini.getint dict sec_key default_val
  ]

  unfoldable pub ini_get_double : Bytes → Double → ConfigParser → Double
  ini_get_double sec_key default_val c = elim c.dict_ini [
    | none ↦ default_val
    | some dict ↦ ini.getdouble dict sec_key default_val
  ]

  unfoldable pub ini_get_string : Bytes → Option Bytes → ConfigParser → Option Bytes
  ini_get_string sec_key default_val c = ini.getstring c.dict_ini sec_key default_val

  unfoldable pub ini_get_bool : Bytes → Bool → ConfigParser → Bool
  ini_get_bool sec_key default_val c = ini.getboolean c.dict_ini sec_key default_val

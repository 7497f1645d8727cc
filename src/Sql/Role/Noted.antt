-- ===== src/Sql/Role/Noted.antt =====
-- role.go: the options that the setters add, against the parts that they stand for.
use db_provision_operator.Base.{
  &&-left, &&-right, Bool, List, Text, [], append-nil, arith, codes, every, false, inl, inr,
  is_empty, map, refl, true, ◌∷◌, ◌≡◌, ◌⊎◌,
}
use db_provision_operator.Sql.Dialect.{Dialect}
use db_provision_operator.Sql.Statement.{Parts, is_spaced, is_word, render}
use db_provision_operator.Sql.Options.{append-AreSpaced, append_options, print_int-word}
use db_provision_operator.Sql.Role.{
  RoleAction, RoleBuilder, RoleCall, RoleOption, account_lock, account_unlock, add_option, apply,
  auth_plugin, bypass_rls, connection_limit, create_db, create_role_opt, flag_text, if_exists,
  in_roles, inherit, login, new, option_text, replication, require_none, require_ssl, require_x509,
  resource_option, run, set_parameter, superuser, valid_until, with_password,
}
use db_provision_operator.Sql.Role.Outline.{flag_parts, is_raw_word, noted, option_parts, options}

pub flag-render :
    (d : Dialect) (v : Bool) (flag : Text) → flag_text v flag ≡ render d (flag_parts v flag)
flag-render d true flag = simp append-nil
flag-render d false flag = simp append-nil

pub option-render : (d : Dialect) (o : RoleOption) → option_text d o ≡ render d (option_parts o)
unfolding option_text
option-render d (login v) = flag-render d v (codes "LOGIN")
option-render d (superuser v) = flag-render d v (codes "SUPERUSER")
option-render d (create_db v) = flag-render d v (codes "CREATEDB")
option-render d (create_role_opt v) = flag-render d v (codes "CREATEROLE")
option-render d (inherit v) = flag-render d v (codes "INHERIT")
option-render d (replication v) = flag-render d v (codes "REPLICATION")
option-render d (bypass_rls v) = flag-render d v (codes "BYPASSRLS")
option-render d (connection_limit n) = simp append-nil
option-render d (valid_until ts) = simp append-nil
option-render d (resource_option opt) = simp append-nil
option-render d account_lock = refl
option-render d account_unlock = refl
option-render d require_ssl = refl
option-render d require_x509 = refl
option-render d require_none = refl

pub flag-spaced :
    (v : Bool) (flag : Text) → is_word flag ≡ true → is_spaced (flag_parts v flag) ≡ true
flag-spaced true flag h = rw h refl
flag-spaced false [] h = cc
flag-spaced false (c ∷ flag) h = rw h refl

pub option-spaced :
    (o : RoleOption) → is_raw_word (add_option o) ≡ true → is_spaced (option_parts o) ≡ true
option-spaced (login v) h = flag-spaced v (codes "LOGIN") refl
option-spaced (superuser v) h = flag-spaced v (codes "SUPERUSER") refl
option-spaced (create_db v) h = flag-spaced v (codes "CREATEDB") refl
option-spaced (create_role_opt v) h = flag-spaced v (codes "CREATEROLE") refl
option-spaced (inherit v) h = flag-spaced v (codes "INHERIT") refl
option-spaced (replication v) h = flag-spaced v (codes "REPLICATION") refl
option-spaced (bypass_rls v) h = flag-spaced v (codes "BYPASSRLS") refl
option-spaced (connection_limit n) h = rw (print_int-word n) refl
option-spaced (valid_until ts) h = refl
option-spaced (resource_option opt) h = rw h refl
option-spaced account_lock h = refl
option-spaced account_unlock h = refl
option-spaced require_ssl h = refl
option-spaced require_x509 h = refl
option-spaced require_none h = refl

-- The texts that a builder holds are those of the noted options.
pub record IsNoted (d : Dialect) (b : RoleBuilder) (os : List Parts) : Type 0 where
  pub dialect : b.dialect ≡ d
  pub role_opts : b.role_opts ≡ map (render d) os
  pub spaced : every is_spaced os ≡ true
  pub plugin : (is_empty b.auth_plugin ≡ true) ⊎ (is_word b.auth_plugin ≡ true)

pub new-IsNoted : (d : Dialect) (a : RoleAction) (n h : Text) → IsNoted d (new d a n h) []
unfolding new
new-IsNoted d a n h = record { dialect = refl; role_opts = refl; spaced = refl; plugin = inl refl }

pub apply-IsNoted :
    (d : Dialect) (c : RoleCall) (b : RoleBuilder) (os : List Parts)
    → is_raw_word c ≡ true
    → IsNoted d b os
    → IsNoted d (apply c b) (noted c os)
unfolding apply
apply-IsNoted d (add_option o) b os w h = record {
  dialect = h.dialect;
  role_opts =
      append_options d _ _ os (option_parts o ∷ []) h.role_opts
        (rw (h.dialect, option-render d o) refl);
  spaced =
      (append-AreSpaced os (option_parts o ∷ []) (record { each = h.spaced })
        (record { each = rw (option-spaced o w) refl })).each;
  plugin = h.plugin;
}
apply-IsNoted d (auth_plugin s) b os w h = record {
  dialect = h.dialect;
  role_opts = h.role_opts;
  spaced = h.spaced;
  plugin = inr w;
}
apply-IsNoted d (with_password s) b os w h = ground arith
apply-IsNoted d (in_roles rs) b os w h = ground arith
apply-IsNoted d (set_parameter p v) b os w h = ground arith
apply-IsNoted d if_exists b os w h = ground arith

pub run-IsNoted :
    (d : Dialect) (cs : List RoleCall) (b : RoleBuilder) (os : List Parts)
    → every is_raw_word cs ≡ true
    → IsNoted d b os
    → IsNoted d (run cs b) (options cs os)
unfolding run
run-IsNoted d [] b os w h = h
run-IsNoted d (c ∷ cs) b os w h =
    run-IsNoted d cs (apply c b) (noted c os) (&&-right (is_raw_word c) _ w)
      (apply-IsNoted d c b os (&&-left (is_raw_word c) _ w) h)

-- ===== src/DnsSync/Tests.antt =====
-- The properties of the synchronisation at concrete inputs: one name with a list of records.
use sendry.Base.{
  ◌≡◌, refl, inr, none, List, [], ◌∷◌, ◌++◌, Text, codes, any, text_eq, to_lower, lower_byte,
  trim_space, trim_left, trim_right, is_space, if◌then◌else◌,
}
use sendry.DnsSync.{
  Provider, PlanEntry, DnsRecord, undecided, record_spf, action_noop, plan_entry, apply_entry,
  normalize_txt, join, words, trim_quote_end, record_prefix, tag_end, is_exact, is_family,
}
use sendry.DnsSync.Applying.{
  Agrees, Untouched, apply_entry-Agrees, apply_entry-settled, apply_entry-overwrites,
}

abbrev write : Text → Text → List DnsRecord → List DnsRecord
write id value [] = []
write id value (r ∷ rs) =
    if text_eq r.record_id id then record r { content = value } ∷ rs else r ∷ write id value rs

abbrev provider : Provider
provider = record {
  Zones = List DnsRecord;
  resolve_zone = λ z name. inr name;
  list_records = λ z zone name type. inr z;
  create_record = λ z zone type name value.
      (none, z ++ (record { record_id = codes "n"; content = value } ∷ []));
  update_record = λ z zone id type name value. (none, write id value z);
}

abbrev spf : PlanEntry
spf = undecided record_spf (codes "a") (codes "v=spf1 mx")

abbrev with_spf : List DnsRecord
with_spf = record { record_id = codes "1"; content = codes "v=spf1  mx" } ∷ []

abbrev with_token : List DnsRecord
with_token = record { record_id = codes "1"; content = codes "token=7" } ∷ []

apply_entry-Agrees_example :
    let r = apply_entry provider with_token spf in
    let shown = plan_entry provider with_token spf in
    Agrees provider r.0 shown × Untouched provider shown.decided with_token r.1
apply_entry-Agrees_example = apply_entry-Agrees provider with_token spf

apply_entry-settled_example :
    ((apply_entry provider with_spf spf).0.decided ≡ action_noop)
    × ((apply_entry provider with_spf spf).1 ≡ with_spf)
unfolding normalize_txt join words trim_quote_end trim_space trim_left trim_right is_space any
    is_exact text_eq
apply_entry-settled_example =
    apply_entry-settled provider with_spf spf (codes "a") with_spf refl refl refl refl refl

apply_entry-overwrites_example :
    (apply_entry provider with_token spf).1 ≡ write (codes "1") (codes "v=spf1 mx") with_token
unfolding normalize_txt join words trim_quote_end trim_space trim_left trim_right is_space any
    is_exact is_family record_prefix tag_end to_lower lower_byte text_eq
apply_entry-overwrites_example =
    apply_entry-overwrites provider with_token spf (codes "a")
      (record { record_id = codes "1"; content = codes "token=7" }) [] refl refl refl refl refl refl

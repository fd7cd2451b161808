-- ===== src/Core/Creation.antt =====
-- core::create_guild of include/aegis/impl/core.cpp: the request, and what is made of the answer. `dump` prints a value
-- and `parse` reads a text, where `none` is an exception of the JSON library.
use aegis_cpp.Common.{
  ◌≡◌, refl, ap, false, ◌∙◌, Bool-cases, inl, inr, List, [], ◌∷◌, Option, none, some, ◌>>=◌,
}
use aegis_cpp.Common.Int.{ℤ}
use aegis_cpp.Common.Text.{Text, bytes, eq_text, eq_text_iff_true}
use aegis_cpp.Json.{
  Value, Fields, boolean, get_field, null, number, string, array, object, end, field, at,
}
use aegis_cpp.Guild.{Role}
use aegis_cpp.Rest.{RequestMethod}
use aegis_cpp.Action.{Answer, set, set_field, set_some, items, post_task}
use aegis_cpp.Objects.Things.{role_to_json}
use aegis_cpp.Objects.Guilds.{GatewayGuild, guild_from_json}

-- create_guild_t; a channel is its name and its type.
pub record CreateGuild : Type 0 where
  pub name : Text
  pub voice_region : Option Text
  pub verification_level : Option ℤ
  pub default_message_notifications : Option ℤ
  pub explicit_content_filter : Option ℤ
  pub icon : Option Text
  pub roles : Option (List Role)
  pub channels : Option (List (Text × ℤ))

abbrev pub channel_value : Text × ℤ → Value
channel_value (name, type) =
    object (field (bytes "name") (string name) (field (bytes "type") (number type) end))

-- `obj["channels"].push_back(...)` for each channel, which sets nothing if there is none.
abbrev pub with_channels : Option (List (Text × ℤ)) → Value → Value
with_channels none j = j
with_channels (some []) j = j
with_channels (some (c ∷ cs)) j = set (bytes "channels") (array (items channel_value (c ∷ cs))) j

unfoldable pub guild_value : CreateGuild → Value
unfolding role_to_json
guild_value g = with_channels g.channels (
    set_some (bytes "roles") (λ rs. array (items role_to_json rs)) g.roles
      (set_some (bytes "icon") string g.icon (
        set_some (bytes "explicit_content_filter") number g.explicit_content_filter (
          set_some (bytes "default_message_notifications") number g.default_message_notifications (
            set_some (bytes "verification_level") number g.verification_level (
              set_some (bytes "region") string g.voice_region
                (set (bytes "name") (string g.name) null)))))))

-- The request of core::create_guild.
unfoldable pub create_guild : (Value → Text) → CreateGuild → Answer
unfolding guild_value
create_guild dump g = post_task (bytes "/guilds") RequestMethod.post (dump (guild_value g))

-- The guild of the reply.
unfoldable pub created_guild : (Text → Option Value) → Text → Option GatewayGuild
unfolding guild_from_json
created_guild parse content = do j ← parse content; guild_from_json j

module _ (k n : Text) (differ : eq_text k n ≡ false) where
  set_field-other : (v : Value) (fs : Fields) → get_field n (set_field k v fs) ≡ get_field n fs
  set_field-other v end = rw differ refl
  set_field-other v (field j w fs) = elim (Bool-cases (eq_text j k)) [
    | inl e ↦ rw (e, ap (λ t. eq_text t n) (eq_text_iff_true j k e) ∙ differ) refl
    | inr e ↦ rw (e, set_field-other v fs) refl
  ]

  at-set : (v : Value) (j : Value) → at n (set k v j) ≡ at n j
  at-set v (object fs) = set_field-other v fs
  at-set v null = rw differ refl
  at-set v (boolean b) = rw differ refl
  at-set v (number z) = rw differ refl
  at-set v (string t) = rw differ refl
  at-set v (array vs) = rw differ refl

  at-set_some :
      {A : Type 0} (f : A → Value) (o : Option A) (j : Value) → at n (set_some k f o j) ≡ at n j
  at-set_some f none j = refl
  at-set_some f (some a) j = at-set (f a) j

at-with_channels :
    (cs : Option (List (Text × ℤ))) (j : Value)
    → at (bytes "name") (with_channels cs j) ≡ at (bytes "name") j
at-with_channels none j = refl
at-with_channels (some []) j = refl
at-with_channels (some (c ∷ cs)) j =
    at-set (bytes "channels") (bytes "name") refl (array (items channel_value (c ∷ cs))) j

-- Whatever options are given, the guild that is asked for has its name.
pub guild_value-name : (g : CreateGuild) → at (bytes "name") (guild_value g) ≡ some (string g.name)
unfolding guild_value
guild_value-name g =
    at-with_channels g.channels _
    ∙ at-set_some (bytes "roles") (bytes "name") refl (λ rs. array (items role_to_json rs)) g.roles
        _
    ∙ at-set_some (bytes "icon") (bytes "name") refl string g.icon _
    ∙ at-set_some (bytes "explicit_content_filter") (bytes "name") refl number
        g.explicit_content_filter _
    ∙ at-set_some (bytes "default_message_notifications") (bytes "name") refl number
        g.default_message_notifications _
    ∙ at-set_some (bytes "verification_level") (bytes "name") refl number g.verification_level _
    ∙ at-set_some (bytes "region") (bytes "name") refl string g.voice_region _

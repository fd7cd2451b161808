-- ===== src/Channel/Load/Pointer.antt =====
-- A load leaves the pointer to the guild of the channel as it was.
use aegis_cpp.Common.{ℕ, ◌≡◌, refl, ◌∙◌, List, Option, none, some, Option-cases, inl, inr}
use aegis_cpp.Json.{Value, boolean, null, number, string, array, object, snowflake_from_json}
use aegis_cpp.Channel.{Channel}
use aegis_cpp.Channel.Load.{
  OverwriteEntry, ChannelObject, Loaded, load_with_guild, with_id, with_some, with_overrides,
  with_parent, with_kind, with_nsfw,
}

with_some_guild {ℓ} :
    {A : Type ℓ} (f : A → Channel → Channel) (o : Option A) (c : Channel)
    → ((a : A) → (f a c).guild ≡ c.guild)
    → (with_some f o c).guild ≡ c.guild
with_some_guild f none c h = refl
with_some_guild f (some a) c h = h a

with_id_guild :
    (old : ℕ) (f : ℕ → Channel → Channel) (o : Option Value) (c : Channel) (next : Channel → Loaded)
    → ((id : ℕ) → (f id c).guild ≡ c.guild)
    → ((k : Channel) → (next k).channel.guild ≡ k.guild)
    → (with_id old f o c next).channel.guild ≡ c.guild
with_id_guild old f none c next h n = n c
with_id_guild old f (some v) c next h n = elim (Option-cases (snowflake_from_json v old)) [
  | inl e ↦ rw (e, with_id) refl
  | inr (id, e) ↦ rw (e, with_id) (n (f id c) ∙ h id)
]

with_overrides_guild :
    (o : Option (List OverwriteEntry)) (c : Channel) → (with_overrides o c).channel.guild ≡ c.guild
with_overrides_guild none c = refl
with_overrides_guild (some es) c = refl

with_parent_guild : (j : ChannelObject) (c : Channel) → (with_parent j c).channel.guild ≡ c.guild
with_parent_guild j c =
    with_id_guild c.parent_id _ j.parent_id c _ (λ id. refl)
      (with_overrides_guild j.permission_overwrites)

with_kind_guild :
    (j : ChannelObject) (o : Option ℕ) (c : Channel) → (with_kind j o c).channel.guild ≡ c.guild
with_kind_guild j (some bitrate) c = with_parent_guild j _
with_kind_guild j none c =
    with_id_guild c.last_message_id _ j.last_message_id _ _ (λ id. refl) (with_parent_guild j)
    ∙ with_some_guild _ j.topic c (λ t. refl)

with_nsfw_guild :
    (o : Option Value) (c : Channel) (next : Channel → Loaded)
    → ((k : Channel) → (next k).channel.guild ≡ k.guild)
    → (with_nsfw o c next).channel.guild ≡ c.guild
with_nsfw_guild none c next n = n c
with_nsfw_guild (some (boolean b)) c next n = n (record c { nsfw = b })
with_nsfw_guild (some null) c next n = refl
with_nsfw_guild (some (number z)) c next n = refl
with_nsfw_guild (some (string t)) c next n = refl
with_nsfw_guild (some (array vs)) c next n = refl
with_nsfw_guild (some (object fs)) c next n = refl

pub load_with_guild_pointer :
    (guild_id : ℕ) (j : ChannelObject) (c : Channel)
    → (load_with_guild guild_id j c).channel.guild ≡ c.guild
unfolding load_with_guild
load_with_guild_pointer guild_id j c =
    with_nsfw_guild j.nsfw _ _ (with_kind_guild j j.bitrate)
    ∙ with_some_guild _ j.name _ (λ n. refl)

-- ===== src/WhiteList/Watch/Tests.antt =====
-- The whitelist's watcher, to which the informer has added the config map.
use image_validating_webhook.Base.{refl, List, Text, codes}
use image_validating_webhook.Cache.{Object, object}
use image_validating_webhook.Watcher.{
  Watcher, new_watcher, set_handler, added, on_add, Steps, rest, next,
}
use image_validating_webhook.Watcher.Tests.{fifo, empty, with_entry, with_entry-Set, key_function}
use image_validating_webhook.WhiteList.ConfigMap.{Session}
use image_validating_webhook.WhiteList.Migration.{new_form}
use image_validating_webhook.WhiteList.Tests.{printable, cluster}
use image_validating_webhook.WhiteList.Watch.{
  Data, Selected, handler, registry_namespace, whitelist_config_map, config_map_key, empty_session,
}

abbrev pub stored_map : Object Data
stored_map = record {
  type = codes "*v1.ConfigMap";
  namespace = registry_namespace;
  name = whitelist_config_map;
  value = new_form printable;
}

abbrev pub initial : Watcher (List Text) Data Session
initial = set_handler (handler cluster) (new_watcher fifo empty empty_session)

abbrev pub informed : Watcher (List Text) Data Session
informed = record initial {
  indexer = with_entry config_map_key (object stored_map);
  queue = on_add fifo key_function initial.queue (object stored_map);
}

pub informed-Steps : Steps fifo key_function key_function Selected initial informed
unfolding config_map_key set_handler new_watcher
informed-Steps = next rest (
    added initial config_map_key (object stored_map) (with_entry config_map_key (object stored_map))
      refl refl (with_entry-Set config_map_key (object stored_map)))

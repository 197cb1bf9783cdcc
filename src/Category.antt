-- ===== src/Category.antt =====
-- internal/repository/category_repo.go: the catalogue of categories and the list of regions.
use proindustrial_backend.Common.{List, [], ◌∷◌}
use proindustrial_backend.Common.Text.{Text, codes}
use proindustrial_backend.Model.{CategoryGroup, SubSubcategory}

shared_maquinarias_children : List SubSubcategory
shared_maquinarias_children =
    record { slug = codes "arriendo"; name = codes "Arriendo" }
    ∷ record { slug = codes "venta"; name = codes "Venta" }
    ∷ []

shared_asesorias_children : List SubSubcategory
shared_asesorias_children =
    record { slug = codes "inspeccion"; name = codes "Inspección" }
    ∷ record { slug = codes "calificacion"; name = codes "Calificación" }
    ∷ record { slug = codes "informatica"; name = codes "Informática" }
    ∷ record { slug = codes "contable"; name = codes "Contable" }
    ∷ []

termofusion : CategoryGroup
unfolding shared_maquinarias_children shared_asesorias_children
termofusion = record {
  slug = codes "termofusion";
  name = codes "Termofusión";
  description =
      codes
        "Unión de tuberías PEAD y polipropileno mediante calor. Para proyectos de agua potable, riego y minería.";
  icon = "pipe";
  subcategories =
      record {
        slug = codes "distribuidoras";
        name = codes "Distribuidoras Tubos";
        description =
            codes "Proveedores y distribuidores de tuberías PEAD, polipropileno y accesorios.";
        icon = "building";
        children = [];
      }
      ∷ record {
        slug = codes "maquinarias";
        name = codes "Maquinarias";
        description = codes "Arriendo y venta de máquinas de termofusión y electrofusión.";
        icon = "wrench";
        children = shared_maquinarias_children;
      }
      ∷ record {
        slug = codes "repuestos";
        name = codes "Repuestos";
        description = codes "Repuestos y accesorios para máquinas de termofusión.";
        icon = "package";
        children = [];
      }
      ∷ record {
        slug = codes "servicios";
        name = codes "Servicios";
        description = codes "Servicios de movimiento de tierra, ingeniería y flete especializados.";
        icon = "network";
        children =
            record { slug = codes "movimiento-tierra"; name = codes "Movimiento de Tierra" }
            ∷ record { slug = codes "ingenieria"; name = codes "Ingeniería" }
            ∷ record { slug = codes "flete"; name = codes "Flete" }
            ∷ [];
      }
      ∷ record {
        slug = codes "asesorias";
        name = codes "Asesorías";
        description = codes "Asesorías técnicas, inspección, calificación e informática.";
        icon = "shield";
        children = shared_asesorias_children;
      }
      ∷ [];
}

geomembranas : CategoryGroup
unfolding shared_maquinarias_children shared_asesorias_children
geomembranas = record {
  slug = codes "geomembranas";
  name = codes "Geomembranas";
  description =
      codes
        "Instalación de liners y geomembranas HDPE para impermeabilización de tranques, piscinas y rellenos.";
  icon = "layers";
  subcategories =
      record {
        slug = codes "distribuidoras";
        name = codes "Distribuidoras Membrana";
        description = codes "Proveedores y distribuidores de geomembranas HDPE y accesorios.";
        icon = "building";
        children = [];
      }
      ∷ record {
        slug = codes "maquinarias";
        name = codes "Maquinarias";
        description =
            codes "Arriendo y venta de extrusoras y equipos de instalación de geomembranas.";
        icon = "wrench";
        children = shared_maquinarias_children;
      }
      ∷ record {
        slug = codes "repuestos";
        name = codes "Repuestos";
        description = codes "Repuestos y equipos de medición para instalación de geomembranas.";
        icon = "package";
        children = [];
      }
      ∷ record {
        slug = codes "servicios";
        name = codes "Servicios";
        description = codes "Servicios de ingeniería, movimiento de tierra y flete especializados.";
        icon = "network";
        children =
            record { slug = codes "ingenieria"; name = codes "Ingeniería" }
            ∷ record { slug = codes "movimiento-tierra"; name = codes "Movimiento Tierra" }
            ∷ record { slug = codes "flete"; name = codes "Flete" }
            ∷ [];
      }
      ∷ record {
        slug = codes "asesorias";
        name = codes "Asesorías";
        description = codes "Asesorías técnicas, inspección, calificación e informática.";
        icon = "shield";
        children = shared_asesorias_children;
      }
      ∷ [];
}

unfoldable pub category_groups : List CategoryGroup
unfolding termofusion geomembranas
category_groups = termofusion ∷ geomembranas ∷ []

unfoldable pub regions : List Text
regions =
    codes "Todas las regiones"
    ∷ codes "Arica y Parinacota"
    ∷ codes "Tarapacá"
    ∷ codes "Antofagasta"
    ∷ codes "Atacama"
    ∷ codes "Coquimbo"
    ∷ codes "Valparaíso"
    ∷ codes "Metropolitana"
    ∷ codes "O'Higgins"
    ∷ codes "Maule"
    ∷ codes "Ñuble"
    ∷ codes "Biobío"
    ∷ codes "La Araucanía"
    ∷ codes "Los Ríos"
    ∷ codes "Los Lagos"
    ∷ codes "Aysén"
    ∷ codes "Magallanes"
    ∷ []
